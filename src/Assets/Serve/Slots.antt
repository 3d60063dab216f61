-- ===== src/Assets/Serve/Slots.antt =====
-- When the origin is asked, and the slot of the semaphore that this takes, handler.go.
use audistro_provider.Prelude.{
  ◌≡◌, refl, ◌↔◌, ◌⊎◌, inl, inr, Bool, true, false, not, ◌&&◌, Option, none, some, Text, codes,
  arith, ◌==◌, split_if,
}
use audistro_provider.Assets.Paths.{AssetRequest, Parsed, accepted, refused, parse_request}
use audistro_provider.Proxyguard.{Semaphore, acquire, release}
use audistro_provider.Assets.Serve.{
  Method, get, head, options, other, StorageMode, filesystem, proxy, hybrid, Handler, Answer,
  error_json, local_file, write_error_status, without_upstream, Outcome, Local, Upstream, Signing,
  signed, sign_failed, sign_panics, signing_of, round_trip, served, unserved, try_serve_local,
  behind_semaphore, of_local, of_hybrid, of_parsed, serve_proxy, World, serve_request, serve_http,
}

release-acquire :
    (cancelled : Bool) (sem : Option Semaphore)
    → (acquire cancelled sem).0 ≡ true
    → release (acquire cancelled sem).1 ≡ sem
unfolding acquire release
release-acquire cancelled none e = refl
release-acquire true (some s) e = cc
release-acquire false (some s) e = ground arith

-- A request that is turned away takes no slot.
acquire-refused :
    (cancelled : Bool) (sem : Option Semaphore)
    → (acquire cancelled sem).0 ≡ false
    → (acquire cancelled sem).1 ≡ sem
unfolding acquire
acquire-refused cancelled none e = cc
acquire-refused true (some s) e = refl
acquire-refused false (some s) e = ground arith

-- The origin may be asked for the request: it is set up, where a signature is wanted there is a signer
-- and it signs the request, and the semaphore has a slot.
abbrev pub IsOpen : Handler → World → Option Semaphore → AssetRequest → Type 0
IsOpen h w sem req =
    (h.has_proxy ≡ true)
    × ((h.hmac && not h.has_signer) ≡ false)
    × ((acquire w.cancelled sem).0 ≡ true)
    × (signing_of h.hmac (w.signing req) ≡ signed)

-- The mode sends the request to the origin: at once, or for a file that is not found locally.
abbrev pub IsRemote : Handler → World → AssetRequest → Type 0
IsRemote h w req =
    (h.mode ≡ proxy) ⊎ ((h.mode ≡ hybrid) × (try_serve_local h req (w.opened req) ≡ unserved 404))

-- The semaphore is left as it was, and the origin is asked exactly under `P`.
abbrev pub Leaves : Option Semaphore → Type 0 → Outcome → Type 0
Leaves sem P o = (o.semaphore ≡ sem) × ((o.asked ≡ true) ↔ P)

module _ (h : Handler) (w : World) (sem : Option Semaphore) where
  unasked : (P : Type 0) (a : Answer) → (P → ⊥) → Leaves sem P (without_upstream a sem)
  unasked P a never = (refl, ((λ e. cc), (λ p. absurd (never p))))

  round_trip-asked :
      (req : AssetRequest) (s : Signing) (u : Upstream)
      → ((round_trip h req s u).1 ≡ true) ↔ (s ≡ signed)
  unfolding round_trip
  round_trip-asked req signed u = ((λ p. refl), (λ p. refl))
  round_trip-asked req sign_failed u = ((λ p. cc), (λ p. cc))
  round_trip-asked req sign_panics u = ((λ p. cc), (λ p. cc))

  behind_semaphore-Leaves :
      (req : AssetRequest) (s : Signing) (u : Upstream) (admitted : Bool × Option Semaphore)
      → acquire w.cancelled sem ≡ admitted
      → Leaves sem
          ((admitted.0 ≡ true) × (signing_of h.hmac s ≡ signed))
          (behind_semaphore h req s u admitted)
  behind_semaphore-Leaves req s u (false, left) e =
      let kept = acquire-refused w.cancelled sem (cc e) in (cc (kept, e), ((λ p. cc), (λ p. p.0)))
  behind_semaphore-Leaves req s u (true, left) e =
      let given = release-acquire w.cancelled sem (cc e) in
      let asks = round_trip-asked req (signing_of h.hmac s) u in
      (cc (given, e), ((λ p. (refl, asks.0 p)), (λ p. asks.1 p.1)))

  serve_proxy-Leaves :
      (req : AssetRequest) (u : Upstream)
      → Leaves sem (IsOpen h w sem req) (serve_proxy h req (w.signing req) u w.cancelled sem)
  unfolding serve_proxy
  serve_proxy-Leaves req u =
      split_if (Leaves sem (IsOpen h w sem req)) (not h.has_proxy)
        (λ none_set.
          unasked (IsOpen h w sem req) (error_json 500 (codes "proxy_not_configured"))
            (λ p. ground arith))
        (λ is_set.
          split_if (Leaves sem (IsOpen h w sem req)) (h.hmac && not h.has_signer)
            (λ unready.
              unasked (IsOpen h w sem req) (error_json 503 (codes "upstream_auth_unavailable"))
                (λ p. ground arith))
            (λ ready.
              let (kept, asks) =
                behind_semaphore-Leaves req (w.signing req) u (acquire w.cancelled sem) refl in
              (
                kept,
                (
                  (λ e. let (free, signs) = asks.0 e in (ground arith, ready, free, signs)),
                  (λ (set, has, free, signs). asks.1 (free, signs)),
                ),
              )))

  -- A request on its way to the origin.
  abbrev pub IsSent : AssetRequest → Type 0
  IsSent req = IsRemote h w req × IsOpen h w sem req

  of_local-Leaves :
      (req : AssetRequest) (l : Local)
      → h.mode ≡ filesystem
      → Leaves sem (IsSent req) (of_local l sem)
  of_local-Leaves req (served size) m = unasked (IsSent req) (local_file size) (λ p. ground arith)
  of_local-Leaves req (unserved status) m =
      unasked (IsSent req) (write_error_status status) (λ p. ground arith)

  of_hybrid-Leaves :
      (req : AssetRequest) (l : Local)
      → try_serve_local h req (w.opened req) ≡ l
      → h.mode ≡ hybrid
      → Leaves sem (IsSent req) (of_hybrid h w req l sem)
  of_hybrid-Leaves req (served size) e m =
      unasked (IsSent req) (local_file size) (λ p. ground arith)
  of_hybrid-Leaves req (unserved status) e m =
      split_if (Leaves sem (IsSent req)) (not (status == 404))
        (λ differs. unasked (IsSent req) (write_error_status status) (λ p. ground arith))
        (λ missing.
          let (kept, asks) = serve_proxy-Leaves req (w.upstream req) in
          let is_404 : status ≡ 404 = ground arith in
          (kept, ((λ a. (inr (m, cc), asks.0 a)), (λ p. asks.1 p.1))))

  serve_request-Leaves :
      (req : AssetRequest) (mode : StorageMode)
      → h.mode ≡ mode
      → Leaves sem (IsSent req) (serve_request mode h w req sem)
  unfolding serve_request
  serve_request-Leaves req filesystem m = of_local-Leaves req _ m
  serve_request-Leaves req proxy m =
      let (kept, asks) = serve_proxy-Leaves req (w.upstream req) in
      (kept, ((λ a. (inl m, asks.0 a)), (λ p. asks.1 p.1)))
  serve_request-Leaves req hybrid m = of_hybrid-Leaves req _ refl m

  of_parsed-Leaves :
      (p : Parsed)
      → Leaves sem ((req : AssetRequest) × (p ≡ accepted req) × IsSent req) (of_parsed h w p sem)
  of_parsed-Leaves (refused status) = unasked _ (write_error_status status) (λ (req, e, sent). cc)
  of_parsed-Leaves (accepted req) =
      let (kept, asks) = serve_request-Leaves req h.mode refl in
      (
        kept,
        (
          (λ a. (req, refl, asks.0 a)),
          (λ (other_req, e, sent). asks.1 (let same : other_req ≡ req = cc in rw same at sent)),
        ),
      )

abbrev pub is_read : Method → Bool
is_read get = true
is_read head = true
is_read _ = false

-- A request leaves the semaphore with as many slots as it found, and the origin is asked exactly for
-- a GET or HEAD whose path is accepted, which the mode sends there (in hybrid mode for a file that is
-- not found locally), where an origin is set up, in the mode hmac there is a signer and it signs
-- the request, and the semaphore has a slot.
pub serve_http-Leaves :
    (h : Handler) (w : World) (m : Method) (path : Text) (sem : Option Semaphore)
    → Leaves sem
        ((is_read m ≡ true)
          × ((req : AssetRequest) × (parse_request h.assets_root path ≡ accepted req)
              × IsSent h w sem req))
        (serve_http h w m path sem)
unfolding serve_http
serve_http-Leaves h w get path sem =
    let (kept, asks) = of_parsed-Leaves h w sem (parse_request h.assets_root path) in
    (kept, ((λ a. (refl, asks.0 a)), (λ (r, p). asks.1 p)))
serve_http-Leaves h w head path sem =
    let (kept, asks) = of_parsed-Leaves h w sem (parse_request h.assets_root path) in
    (kept, ((λ a. (refl, asks.0 a)), (λ (r, p). asks.1 p)))
serve_http-Leaves h w options path sem = (refl, ((λ e. cc), (λ (r, p). cc)))
serve_http-Leaves h w other path sem = (refl, ((λ e. cc), (λ (r, p). cc)))
