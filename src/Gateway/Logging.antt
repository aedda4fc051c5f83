-- ===== src/Gateway/Logging.antt =====
-- pkg/logger/middleware.go: the correlation id and the line of the access log.
use loyalty_points_app.Prelude.{ℕ, String, ◌≡◌, refl, List, [], ◌∷◌, ◌==◌, if◌then◌else◌}

abbrev pub request_id_header : String
request_id_header = "X-Request-ID"

-- What a handler writes: a status, or a part of the body.
pub data Written : Type 0 where
  status_line : ℕ → Written
  body_part : String → Written

-- What the client gets: the headers that were set before the handler ran, and what it wrote.
pub record Exchange : Type 0 where
  pub headers : List (String × String)
  pub written : List Written

pub record AccessLog : Type 0 where
  pub request_id : String
  pub status : ℕ
  pub path : String

-- `statusRecorder`: each `WriteHeader` sets the status, and is passed on.
unfoldable pub recorded_status : ℕ → List Written → ℕ
recorded_status status [] = status
recorded_status status (status_line code ∷ ws) = recorded_status code ws
recorded_status status (body_part s ∷ ws) = recorded_status status ws

-- The inbound id, or a new one.
abbrev pub request_id_of : String → String → String
request_id_of inbound fresh = if inbound == "" then fresh else inbound

-- `handler` writes for a request under its id; `fresh` is `uuid.NewString()`.
unfoldable pub logger_middleware :
    (String → List Written) → String → String → String → Exchange × AccessLog
logger_middleware handler inbound fresh path =
    let id = request_id_of inbound fresh in
    (
      record { headers = (request_id_header, id) ∷ []; written = handler id },
      record { request_id = id; status = recorded_status 200 (handler id); path = path },
    )

-- The status that net/http sends: that of the first status line before any part of the body, and 200
-- where there is none.
sent_status : List Written → ℕ
sent_status [] = 200
sent_status (status_line code ∷ ws) = code
sent_status (body_part s ∷ ws) = 200

-- Only parts of the body.
abbrev IsBody : List Written → Type 0
IsBody [] = Unit
IsBody (status_line code ∷ ws) = ⊥
IsBody (body_part s ∷ ws) = IsBody ws

recorded_status-IsBody :
    (status : ℕ) (ws : List Written) → IsBody ws → recorded_status status ws ≡ status
unfolding recorded_status
recorded_status-IsBody status [] h = refl
recorded_status-IsBody status (status_line code ∷ ws) h = absurd h
recorded_status-IsBody status (body_part s ∷ ws) h = recorded_status-IsBody status ws h

-- A handler that writes one status and then its body, as the envelope of an error does: the log has
-- the status that the client gets.
recorded_status-sent_status :
    (code : ℕ) (ws : List Written)
    → IsBody ws
    → recorded_status 200 (status_line code ∷ ws) ≡ sent_status (status_line code ∷ ws)
unfolding recorded_status sent_status
recorded_status-sent_status code ws h = recorded_status-IsBody code ws h
