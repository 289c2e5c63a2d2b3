-- ===== src/Runner/Host.antt =====
-- src/oreeai_notetaker/workers/bot_runner.py: what the runner's own machine answers, and `run_docker`.
use oreeai_notetaker.Prelude.{
  ℕ, ◌≡◌, ℤ, negsuc, Bool, true, false, List, ◌∷◌, Option, none, some, String,
}
use oreeai_notetaker.World.{Action, returned, crashed, nothing_more, note, docker_called, ◌>>=◌}
use oreeai_notetaker.Runner.Result.{Reader}

-- What comes of `create_subprocess_exec` and `communicate`: an OSError (docker is not there), or an
-- exit with its code, if it has one, and its outputs.
pub data Subprocess : Type 0 where
  not_started : Subprocess
  exited : Option ℤ → String → String → Subprocess

-- The first argument of an answer is the moment.
pub record Host : Type 0 where
  pub docker : ℕ → List String → Subprocess
  -- `os.environ.get`, `settings.bot_profile`
  pub environ : String → Option String
  pub bot_profile : String
  pub path_exists : ℕ → String → Bool
  pub copytree_fails : ℕ → String → Bool
  -- `uuid.UUID(raw)`, or `none` for a ValueError
  pub uuid_of : String → Option ℕ
  pub reader : Reader

-- `DockerResult`
pub record DockerResult : Type 0 where
  pub returncode : ℤ
  pub stdout : String
  pub stderr : String

abbrev pub returncode_or : Option ℤ → ℤ
returncode_or none = negsuc 0
returncode_or (some n) = n

-- The exception comes through.
unfoldable pub run_docker : Host → List String → Action DockerResult
run_docker host args w = elim (host.docker w.tick args) [
  | not_started ↦ (crashed, note (docker_called ("docker" ∷ args)) w)
  | exited code stdout stderr ↦ (
    returned (record { returncode = returncode_or code; stdout = stdout; stderr = stderr }),
    note (docker_called ("docker" ∷ args)) w,
  )
]

-- A command whose answer is not looked at.
abbrev pub docker_do : Host → List String → Action (Unit {0})
docker_do host args = run_docker host args >>= λ _. nothing_more

-- Docker is there, whatever it answers.
abbrev pub is_started : Subprocess → Bool
is_started not_started = false
is_started (exited code stdout stderr) = true

abbrev pub HasDocker : Host → Type 0
HasDocker host = (at : ℕ) (args : List String) → is_started (host.docker at args) ≡ true
