-- ===== src/CommandLine/Main.antt =====
-- cmd/kafkarator/main.go: `formatter`, and the exit codes of `main`. What the reconcilers do meanwhile is
-- the other modules'.
use kafkarator.Base.{
  String, ◌<>◌, List, [], ◌∷◌, Option, none, some, ◌==◌, string_eq, if◌then◌else◌,
}
use kafkarator.Go.{Error, Result, ok, err, panic, text}
use kafkarator.CommandLine.Start.{Settings, FeatureFlags}

-- The two formatters of logrus.
pub data LogFormatter : Type 0 where
  json : LogFormatter
  plain : LogFormatter

-- `formatter`
unfoldable pub log_formatter : String → Result LogFormatter
log_formatter log_format =
    if log_format == "json"
    then ok json
    else (if log_format == "text"
        then ok plain
        else err (text ("unsupported log format '" <> log_format <> "'")))

-- The exit codes, in their order, and a panic.
pub data ExitCode : Type 0 where
  success : ExitCode
  controller_failure : ExitCode
  wrong_config : ExitCode
  runtime_failure : ExitCode
  panicked : ExitCode

-- What ends the process: the goroutine of `main` receives an error from `quit`, or a signal; or `main`
-- itself returns, which it does when the manager has stopped. It has then sent an error on `quit`, but the
-- channel has a buffer, so that it may return before the goroutine has received it.
pub data Notice : Type 0 where
  quit : Error → Notice
  signalled : Notice
  returned : Notice

-- The `select` of the goroutine, and the end of `main`: whatever is first ends the process.
unfoldable pub await : List Notice → Option ExitCode
await [] = none
await (quit _ ∷ _) = some runtime_failure
await (signalled ∷ _) = some success
await (returned ∷ _) = some success

-- A step of `main` whose error ends the process with a code.
unfoldable pub or_exit {ℓ} :
    {A : Type ℓ} → ExitCode → Result A → (A → Option ExitCode) → Option ExitCode
or_exit code (ok a) k = k a
or_exit code (err _) k = some code
or_exit code panic k = some panicked

-- `main`, on the outcomes of `GetFeatureFlags` and `ctrl.NewManager`, and the notices that follow.
unfoldable pub main_exit :
    Settings → Result FeatureFlags → Result (Unit {0}) → List Notice → Option ExitCode
unfolding log_formatter await or_exit
main_exit settings flags mgr notices =
    or_exit wrong_config (log_formatter settings.log_format) (λ logfmt.
      or_exit wrong_config flags
        (λ feature_flags. or_exit controller_failure mgr (λ m. await notices)))
