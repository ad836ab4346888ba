-- ===== src/Publication/Accepts.antt =====
-- An acceptance, src/continuation.rs, leaves an honest record, whoever else is at work.
use agent_bash_tool.Common.{◌≡◌, refl, ◌∙◌, true, some, arith}
use agent_bash_tool.Common.Bytes.{codes}
use agent_bash_tool.Effects.Actors.{reads, touches}
use agent_bash_tool.Effects.Actors.Keeps.{
  Keeps, Keeps-returns, Keeps-fails, Keeps-if, Keeps-reads, Keeps-bind, Keeps-then, Keeps-look,
  Keeps-lift,
}
use agent_bash_tool.RootProtocol.Json.{Value, at, is_text}
use agent_bash_tool.Continuation.Files.{Binding, exact, or_missing}
use agent_bash_tool.Publication.Evidence.{Evidence, Outside}
use agent_bash_tool.Publication.Immutable.{require}
use agent_bash_tool.Publication.Basis.{binding}
use agent_bash_tool.Publication.Acceptance.{
  record_accepted, accepted_keys, is_acceptance, save_accepted, accept,
}
use agent_bash_tool.Publication.Honest.{
  record_accepted-record_all, with_key-IsHonest, accepted-IsHonest,
}
use agent_bash_tool.Publication.Selects.{
  Sound, evidence_order, or_missing-some, binding-Ends, touches-Ends,
}
use agent_bash_tool.Publication.Loses.{put_local-Ends}

module _ (o : Outside) where
  abbrev Named : Value → Value → Value → Type 0
  Named reply s out =
      (is_text (at reply (codes "snapshot_sha256")) (o.digest s) ≡ true)
      × (is_text (at reply (codes "outcome_sha256")) (o.digest out) ≡ true)

  acceptance-Named :
      (b : Binding) (reply s out : Value) → is_acceptance o b reply s out ≡ true → Named reply s out
  acceptance-Named b reply s out h = ground arith

  require-holds :
      (b : Binding) (reply s out : Value) (d : Evidence)
      → Keeps
          (evidence_order o)
          (λ _ d'. is_acceptance o b reply s out ≡ true)
          (require (is_acceptance o b reply s out) "not an exact completion acceptance receipt")
          d
  require-holds b reply s out d =
      Keeps-if (is_acceptance o b reply s out) _ _ d (λ e. Keeps-returns tt d e)
        (λ _. Keeps-fails _ d)

  save_accepted-Ends :
      (reply s out : Value) (d : Evidence)
      → Named reply s out
      → d.chain.snapshot ≡ some s
      → d.chain.outcome ≡ some out
      → Sound o (save_accepted o reply) d
  unfolding save_accepted
  save_accepted-Ends reply s out d named there there' =
      Keeps-then touches _ d (touches-Ends o d) (λ _ d1 g1.
        Keeps-look (λ d. d.source.local) _ d1
          (λ file d2 g2. Keeps-lift (or_missing file) _ d2 (λ l d3 e3 g3.
            Keeps-lift (record_accepted accepted_keys reply l) _ d3 (λ r d4 e4 g4.
              let there4 =
                g4.snapshot_kept s
                  (g3.snapshot_kept s (g2.snapshot_kept s (g1.snapshot_kept s there))) in
              let there4' =
                g4.outcome_kept out
                  (g3.outcome_kept out (g2.outcome_kept out (g1.outcome_kept out there'))) in
              put_local-Ends o _ d4 (
                with_key-IsHonest o.digest d4.chain r (codes "enqueue") _ refl refl (
                  rw (record_accepted-record_all accepted_keys reply l r e4) (
                    accepted-IsHonest o.digest d4.chain reply l s out there4 there4' named.0
                      named.1)))))))

  pub accept-Ends : (reply : Value) (d : Evidence) → Sound o (accept o reply) d
  unfolding accept
  accept-Ends reply d = Keeps-then (binding o) _ d (binding-Ends o d) (λ b d1 g1.
      Keeps-lift (exact b.common reply) _ d1 (λ _ d2 e2 g2.
        Keeps-bind (λ file d'. d'.chain.snapshot ≡ file) (reads (λ d. d.chain.snapshot)) _ d2
          (Keeps-reads (λ d. d.chain.snapshot) d2 (λ d' g i. refl))
          (λ file d3 g3 seen. Keeps-lift (or_missing file) _ d3 (λ s d4 e4 g4.
            Keeps-bind (λ file' d'. d'.chain.outcome ≡ file') (reads (λ d. d.chain.outcome)) _ d4
              (Keeps-reads (λ d. d.chain.outcome) d4 (λ d' g i. refl))
              (λ file' d5 g5 seen'. Keeps-lift (or_missing file') _ d5 (λ out d6 e6 g6.
                Keeps-bind (λ _ d'. is_acceptance o b reply s out ≡ true) _ _ d6
                  (require-holds b reply s out d6)
                  (λ _ d7 g7 h.
                    save_accepted-Ends reply s out d7 (acceptance-Named b reply s out h)
                      (g7.snapshot_kept s (
                        g6.snapshot_kept s (
                          g5.snapshot_kept s
                            (g4.snapshot_kept s (seen ∙ or_missing-some file s e4)))))
                      (g7.outcome_kept out
                        (g6.outcome_kept out (seen' ∙ or_missing-some file' out e6))))))))))
