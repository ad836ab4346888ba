-- ===== src/Release/Receipt/Tests.antt =====
-- The release of the sample.
use agent_bash_tool.Common.{none}
use agent_bash_tool.Effects.Meets.{Post}
use agent_bash_tool.Release.Receipt.{retention_released}
use agent_bash_tool.Release.Receipt.Recorded.{
  KeepsRelease, AnswersRelease, retention_released-IsReleased,
}
use agent_bash_tool.Release.Receipt.Samples.{parse, digest, paths, readings, world}

retention_released-IsReleased_example :
    Post
      (KeepsRelease parse digest paths readings none)
      (AnswersRelease parse digest paths readings none)
      (retention_released parse digest paths readings world)
retention_released-IsReleased_example =
    retention_released-IsReleased parse digest paths readings world
