-- ===== src/Server/Reply.antt =====
-- What a handler of internal/server writes back: `writeErr` and `writeJSON` with the status code and
-- the JSON object.
use opencode_backend.Base.{ℕ, String, List}
use opencode_backend.Executor.World.{Act, give}
use opencode_backend.Store.Task.{Task}

pub data Body : Type 0 where
  error_body : String → Body
  task_body : Task → Body
  page_body : List Task → ℕ → ℕ → ℕ → Body
  purged_body : ℕ → ℕ → Body
  ok_body : Body
  blocked_body : ℕ → Body
  created_body : List String → ℕ → Body

pub record Reply : Type 0 where
  pub code : ℕ
  pub body : Body

unfoldable pub write_err : ℕ → String → Act Reply
unfolding give
write_err code message = give (record { code = code; body = error_body message })

unfoldable pub write_json : ℕ → Body → Act Reply
unfolding give
write_json code body = give (record { code = code; body = body })
