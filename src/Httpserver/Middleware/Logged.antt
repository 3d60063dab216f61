-- ===== src/Httpserver/Middleware/Logged.antt =====
-- What the server's chain logs of a request, server.go and middleware.go.
use audistro_provider.Prelude.{ℕ, ◌≡◌, refl, ◌⊎◌, inl, inr, false, [], ◌∷◌, Text, Bool-cases}
use audistro_provider.Httpserver.{
  route_label, Contract, Verdict, passed, content_type_refused, invalid, open_api_validation,
}
use audistro_provider.Httpserver.Middleware.{
  Request, Run, Handler, status_after, bytes_of, request_id, hold, validation, recover, access_log,
  http_metrics, chain, server_handler,
}

-- A run that ended well was logged and observed once, with one status and one number of bytes, under
-- the id that the request's context held from the start.
pub record IsLogged (r : Request) (run : Run) : Type 0 where
  pub ended : run.panicked ≡ false
  pub line :
      run.access
      ≡ record {
        path = r.path;
        status = status_after run.calls 200;
        bytes = bytes_of run.calls;
        request_id = r.context_id;
      }
        ∷ []
  pub observation :
      run.observed
      ≡ record {
        route = route_label r.path;
        status = status_after run.calls 200;
        bytes = bytes_of run.calls;
      }
        ∷ []
  pub recovered : (run.recovered ≡ []) ⊎ (run.recovered ≡ r.context_id ∷ [])

-- A handler that logs and observes nothing itself.
abbrev pub IsSilent : Run → Type 0
IsSilent run = (run.access ≡ []) × (run.observed ≡ []) × (run.recovered ≡ [])

recover-IsSilent :
    (next : Handler) (r : Request)
    → IsSilent (next r)
    → ((recover next r).panicked ≡ false)
      × ((recover next r).access ≡ [])
      × ((recover next r).observed ≡ [])
      × (((recover next r).recovered ≡ []) ⊎ ((recover next r).recovered ≡ r.context_id ∷ []))
unfolding recover
recover-IsSilent next r (a, o, c) = elim (Bool-cases (next r).panicked) [
  | inl panics ↦ simp panics (refl, a, o, inr (rw c refl))
  | inr ends ↦ simp ends (refl, a, o, inl c)
]

recover-IsLogged :
    (next : Handler) (r : Request)
    → IsSilent (next r)
    → IsLogged r (http_metrics (access_log (recover next)) r)
unfolding http_metrics access_log
recover-IsLogged next r silent =
    let (ended, a, o, c) = recover-IsSilent next r silent in
    simp ended (record { ended = refl; line = rw a refl; observation = rw o refl; recovered = c })

hold-IsSilent : (v : Verdict) (size : ℕ) (run : Run) → IsSilent run → IsSilent (hold v size run)
hold-IsSilent passed size run h = h
hold-IsSilent content_type_refused size run h = (refl, refl, refl)
hold-IsSilent invalid size run h = (refl, refl, refl)

-- Whatever the handler does, a request to the server ends without a panic, and is logged and observed
-- once with one status; the log names the id of the incoming context, never the one that is generated
-- for the request and sent in its header.
pub server_handler-IsLogged :
    (id : Text) (contract : Contract) (size : ℕ) (mux : Handler) (r : Request)
    → IsSilent (mux (record r { context_id = id }))
    → IsLogged r (server_handler id contract size mux r)
unfolding server_handler chain validation request_id
server_handler-IsLogged id contract size mux r silent =
    recover-IsLogged (validation contract size (request_id id mux)) r
      (hold-IsSilent (open_api_validation contract r.path r.content_type) size _ silent)
