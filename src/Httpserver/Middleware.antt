-- ===== src/Httpserver/Middleware.antt =====
-- internal/httpserver/middleware.go, metrics_middleware.go and the chain that server.go makes: what
-- wraps a handler. The generated id, the answer of the contract and the handler are arguments; times
-- and log fields that are set from within are left out.
pub mod Logged
use audistro_provider.Prelude.{ℕ, ◌+◌, Bool, true, false, List, [], ◌∷◌, ◌++◌, Text, if◌then◌else◌}
use audistro_provider.Httpserver.{
  RouteLabel, route_label, Contract, Verdict, passed, content_type_refused, invalid,
  open_api_validation,
}

-- A call of the ResponseWriter: WriteHeader of a status, or Write of a number of bytes.
pub data WriterCall : Type 0 where
  write_header write : ℕ → WriterCall

-- What is read of a request; `context_id` is the id that its context holds, empty where it has none.
pub record Request : Type 0 where
  pub path : Text
  pub content_type : Text
  pub context_id : Text

-- The line of AccessLog, and what HTTPMetrics observes.
pub record AccessLine : Type 0 where
  pub path : Text
  pub status : ℕ
  pub bytes : ℕ
  pub request_id : Text

pub record Observation : Type 0 where
  pub route : RouteLabel
  pub status : ℕ
  pub bytes : ℕ

-- What a handler has done when it returns or panics; `recovered` lists the ids that Recover logged.
pub record Run : Type 0 where
  pub calls : List WriterCall
  pub panicked : Bool
  pub request_id_header : Text
  pub recovered : List Text
  pub access : List AccessLine
  pub observed : List Observation

abbrev pub Handler : Type 0
Handler = Request → Run

abbrev pub Middleware : Type 0
Middleware = Handler → Handler

-- The `status` and `bytes` of responseWriter and of metricsResponseWriter, from 200 and 0.
unfoldable pub status_after : List WriterCall → ℕ → ℕ
status_after [] status = status
status_after (write_header s ∷ calls) status = status_after calls s
status_after (write n ∷ calls) status = status_after calls status

unfoldable pub bytes_of : List WriterCall → ℕ
bytes_of [] = 0
bytes_of (write_header s ∷ calls) = bytes_of calls
bytes_of (write n ∷ calls) = n + bytes_of calls

unfoldable pub request_id : Text → Middleware
request_id id next r = record (next (record r { context_id = id })) { request_id_header = id }

abbrev pub refusal : ℕ → Run
refusal size = record {
  calls = write_header 400 ∷ write size ∷ [];
  panicked = false;
  request_id_header = [];
  recovered = [];
  access = [];
  observed = [];
}

abbrev pub hold : Verdict → ℕ → Run → Run
hold passed size run = run
hold content_type_refused size run = refusal size
hold invalid size run = refusal size

-- `OpenAPIValidation`; `size` is the length of the body that it answers.
unfoldable pub validation : Contract → ℕ → Middleware
validation contract size next r =
    hold (open_api_validation contract r.path r.content_type) size (next r)

-- http.Error writes the status, and its text with a newline.
abbrev pub recovered_run : Text → Run → Run
recovered_run id run = record run {
  calls = run.calls ++ write_header 500 ∷ write 22 ∷ [];
  panicked = false;
  recovered = id ∷ run.recovered;
}

unfoldable pub recover : Middleware
recover next r = if (next r).panicked then recovered_run r.context_id (next r) else next r

abbrev pub logged_run : Request → Run → Run
logged_run r run = record run {
  access =
      record {
        path = r.path;
        status = status_after run.calls 200;
        bytes = bytes_of run.calls;
        request_id = r.context_id;
      }
      ∷ run.access;
}

unfoldable pub access_log : Middleware
access_log next r = if (next r).panicked then next r else logged_run r (next r)

abbrev pub observed_run : Request → Run → Run
observed_run r run = record run {
  observed =
      record {
        route = route_label r.path;
        status = status_after run.calls 200;
        bytes = bytes_of run.calls;
      }
      ∷ run.observed;
}

unfoldable pub http_metrics : Middleware
http_metrics next r = if (next r).panicked then next r else observed_run r (next r)

-- `Chain`: the first middleware is the outermost.
unfoldable pub chain : Handler → List Middleware → Handler
chain next [] = next
chain next (m ∷ mws) = m (chain next mws)

-- The handler of the server, around its mux.
unfoldable pub server_handler : Text → Contract → ℕ → Handler → Handler
unfolding chain http_metrics access_log recover validation request_id
server_handler id contract size mux =
    chain mux (http_metrics ∷ access_log ∷ recover ∷ validation contract size ∷ request_id id ∷ [])
