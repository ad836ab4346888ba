-- ===== src/Identity/Stat/Printed.antt =====
-- The line that the kernel prints for a process is read as it was printed, whatever the command is called.
use agent_bash_tool.Common.{
  ℕ, ◌≤◌, ◌<◌, ◌≡◌, refl, subst, ◌∙◌, ap, true, false, none, some, List, [], ◌∷◌, ◌++◌, ◌==◌, ◌^◌,
  length, arith,
}
use agent_bash_tool.Common.Decimal.{parse_signed, parse_unsigned, print_unsigned, print_signed}
use agent_bash_tool.Common.Decimal.RoundTrip.{
  AreDigits, print_unsigned-AreDigits, parse_unsigned-print, parse_signed-print,
}
use agent_bash_tool.Common.Int.{pos}
use agent_bash_tool.Identity.Stat.{
  is_whitespace, before_words, first_word, words, after_name, get_elem?, pid_max, ticks_max,
  parse_proc_stat,
}

-- Neither white space nor a closing parenthesis.
abbrev pub AreLetters : List ℕ → Type 0
AreLetters [] = Unit {0}
AreLetters (c ∷ cs) = (is_whitespace c ≡ false) × ((41 == c) ≡ false) × AreLetters cs

abbrev pub IsWord : List ℕ → Type 0
IsWord [] = ⊥
IsWord (c ∷ cs) = AreLetters (c ∷ cs)

abbrev pub AreWords : List (List ℕ) → Type 0
AreWords [] = Unit {0}
AreWords (word ∷ rest) = IsWord word × AreWords rest

-- A space between two words and a newline at the end.
abbrev separator : List (List ℕ) → ℕ
separator [] = 10
separator (word ∷ rest) = 32

abbrev pub spaced : List (List ℕ) → List ℕ
spaced [] = []
spaced (word ∷ rest) = word ++ (separator rest ∷ spaced rest)

separator-whitespace : (rest : List (List ℕ)) → is_whitespace (separator rest) ≡ true
unfolding is_whitespace
separator-whitespace [] = refl
separator-whitespace (word ∷ rest) = refl

white_space : is_whitespace 32 ≡ true
unfolding is_whitespace
white_space = refl

first_word-append :
    (word : List ℕ) (c : ℕ) (rest : List ℕ)
    → AreLetters word
    → is_whitespace c ≡ true
    → first_word (word ++ (c ∷ rest)) ≡ (word, words rest)
unfolding first_word words
first_word-append [] c rest h white = rw white refl
first_word-append (d ∷ word) c rest h white = rw (h.0, first_word-append word c rest h.2 white) refl

IsWord-AreLetters : (word : List ℕ) → IsWord word → AreLetters word
IsWord-AreLetters [] h = absurd h
IsWord-AreLetters (c ∷ cs) h = h

before_words-IsWord :
    (word : List ℕ) (rest : List (List ℕ)) → IsWord word → before_words word rest ≡ word ∷ rest
before_words-IsWord [] rest h = absurd h
before_words-IsWord (c ∷ cs) rest h = refl

words-append :
    (word : List ℕ) (c : ℕ) (rest : List ℕ)
    → IsWord word
    → is_whitespace c ≡ true
    → words (word ++ (c ∷ rest)) ≡ word ∷ words rest
unfolding words
words-append word c rest h white =
    rw (first_word-append word c rest (IsWord-AreLetters word h) white)
      (before_words-IsWord word (words rest) h)

words-spaced : (ws : List (List ℕ)) → AreWords ws → words (spaced ws) ≡ ws
unfolding words first_word
words-spaced [] h = refl
words-spaced (word ∷ rest) h =
    words-append word (separator rest) (spaced rest) h.0 (separator-whitespace rest)
    ∙ ap (λ ws. word ∷ ws) (words-spaced rest h.1)

after_name-append :
    (word text : List ℕ)
    → AreLetters word
    → after_name text ≡ none
    → after_name (word ++ text) ≡ none
unfolding after_name
after_name-append [] text h e = e
after_name-append (c ∷ cs) text h e = rw (after_name-append cs text h.2 e, h.1) refl

after_name-spaced : (ws : List (List ℕ)) → AreWords ws → after_name (spaced ws) ≡ none
unfolding after_name
after_name-spaced [] h = refl
after_name-spaced (word ∷ []) h = after_name-append word (10 ∷ []) (IsWord-AreLetters word h.0) refl
after_name-spaced (word ∷ next ∷ rest) h =
    let later : after_name (spaced (next ∷ rest)) ≡ none = after_name-spaced (next ∷ rest) h.1 in
    after_name-append word (32 ∷ spaced (next ∷ rest)) (IsWord-AreLetters word h.0) (rw later refl)

-- Whatever stands before it, the last `) ` counts.
after_name-before :
    (before text rest : List ℕ)
    → after_name text ≡ some rest
    → after_name (before ++ text) ≡ some rest
unfolding after_name
after_name-before [] text rest e = e
after_name-before (c ∷ cs) text rest e = rw (after_name-before cs text rest e) refl

after_name-last :
    (before text : List ℕ)
    → after_name text ≡ none
    → after_name (before ++ (41 ∷ 32 ∷ text)) ≡ some text
unfolding after_name
after_name-last before text e = after_name-before before (41 ∷ 32 ∷ text) text (rw e refl)

AreDigits-AreLetters : (text : List ℕ) → AreDigits text → AreLetters text
unfolding is_whitespace
AreDigits-AreLetters [] h = record {}
AreDigits-AreLetters (c ∷ cs) h = (ground arith, ground arith, AreDigits-AreLetters cs h.2)

print_unsigned-IsWord : (n : ℕ) → n < 10 ^ 20 → IsWord (print_unsigned n)
unfolding parse_unsigned
print_unsigned-IsWord n small =
    by_text (print_unsigned n) (AreDigits-AreLetters _ (print_unsigned-AreDigits n))
      (parse_unsigned-print (10 ^ 20) n (omega arith) (omega arith))
  where
    by_text :
        (text : List ℕ) → AreLetters text → parse_unsigned (10 ^ 20) text ≡ some n → IsWord text
    by_text [] h e = absurd (ground arith)
    by_text (c ∷ cs) h e = h

get_elem?-append :
    {A : Type 0} (xs : List A) (x : A) (more : List A)
    → get_elem? (xs ++ (x ∷ more)) (length xs) ≡ some x
get_elem?-append [] x more = refl
get_elem?-append (y ∷ ys) x more = get_elem?-append ys x more

-- The fields after the name of the command: 17 stand between the parent and the start.
abbrev pub fields : ℕ → ℕ → List (List ℕ) → ℕ → List (List ℕ) → List (List ℕ)
fields state ppid middle start more =
    (state ∷ []) ∷ print_unsigned ppid ∷ (middle ++ (print_unsigned start ∷ more))

abbrev pub print_line : ℕ → List ℕ → List (List ℕ) → List ℕ
print_line pid command rest = print_unsigned pid ++ (32 ∷ 40 ∷ (command ++ (41 ∷ 32 ∷ spaced rest)))

append-AreWords : (xs ys : List (List ℕ)) → AreWords xs → AreWords ys → AreWords (xs ++ ys)
append-AreWords [] ys hx hy = hy
append-AreWords (x ∷ xs) ys hx hy = (hx.0, append-AreWords xs ys hx.1 hy)

-- What the kernel prints of a process.
pub record IsPrinted (pid state ppid start : ℕ) (middle more : List (List ℕ)) : Type 0 where
  pub pid_fits : pid ≤ pid_max
  pub ppid_fits : ppid ≤ pid_max
  pub start_fits : start ≤ ticks_max
  pub state_word : IsWord (state ∷ [])
  pub middle_words : AreWords middle
  pub more_words : AreWords more
  pub middle_length : length middle ≡ 17

fields-AreWords :
    {pid state ppid start : ℕ} {middle more : List (List ℕ)}
    → IsPrinted pid state ppid start middle more
    → AreWords (fields state ppid middle start more)
fields-AreWords {pid} {state} {ppid} {start} {middle} {more} h = (
  h.state_word,
  (
    print_unsigned-IsWord ppid (let fits = h.ppid_fits in omega arith),
    append-AreWords middle (print_unsigned start ∷ more) h.middle_words
        (print_unsigned-IsWord start (let fits = h.start_fits in omega arith), h.more_words),
  ),
)

-- A line is read as the process that it was printed of, whatever its command is called, where its numbers
-- are in their bounds, its other fields are words without a closing parenthesis, and 17 of them stand
-- between the parent and the start.
pub parse_proc_stat-print_line :
    (pid state ppid start : ℕ) (command : List ℕ) (middle more : List (List ℕ))
    → IsPrinted pid state ppid start middle more
    → parse_proc_stat (print_line pid command (fields state ppid middle start more))
      ≡ some (record { pid = pos pid; ppid = pos ppid; state = state; starttime_ticks = start })
unfolding parse_proc_stat print_signed
parse_proc_stat-print_line pid state ppid start command middle more h =
    let rest = fields state ppid middle start more in
    let line = print_line pid command rest in
    let named : after_name line ≡ some (spaced rest) =
      after_name-before (print_unsigned pid) _ (spaced rest) (
        after_name-last (32 ∷ 40 ∷ command) (spaced rest)
          (after_name-spaced rest (fields-AreWords h))) in
    let first : words line
        ≡ print_unsigned pid ∷ words (40 ∷ (command ++ (41 ∷ 32 ∷ spaced rest))) =
      words-append (print_unsigned pid) 32 _
        (print_unsigned-IsWord pid (let fits = h.pid_fits in omega arith)) white_space in
    let later : words (spaced rest) ≡ rest = words-spaced rest (fields-AreWords h) in
    let pid_read : parse_signed pid_max (print_unsigned pid) ≡ some (pos pid) =
      parse_signed-print pid_max pid (let fits = h.pid_fits in omega arith) h.pid_fits in
    let ppid_read : parse_signed pid_max (print_unsigned ppid) ≡ some (pos ppid) =
      parse_signed-print pid_max ppid (let fits = h.ppid_fits in omega arith) h.ppid_fits in
    let start_read : parse_unsigned ticks_max (print_unsigned start) ≡ some start =
      parse_unsigned-print ticks_max start (let fits = h.start_fits in omega arith) h.start_fits in
    let at_start : get_elem? (middle ++ (print_unsigned start ∷ more)) 17
        ≡ some (print_unsigned start) =
      subst
        (λ n. get_elem? (middle ++ (print_unsigned start ∷ more)) n ≡ some (print_unsigned start))
        h.middle_length (get_elem?-append middle (print_unsigned start) more) in
    rw (named, first, pid_read, later, ppid_read, at_start, start_read) refl
