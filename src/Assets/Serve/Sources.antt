-- ===== src/Assets/Serve/Sources.antt =====
-- Where an answer comes from, and when the origin is asked, handler.go.
use audistro_provider.Prelude.{
  ◌⊎◌, inl, inr, ℕ, ◌≡◌, refl, ◌≢◌, inl, inr, Bool, true, false, not, ◌&&◌, Option, Text, arith,
  ◌==◌, Bool-cases, split_if,
}
use audistro_provider.Go.Int64.{ℤ, pos, ltb_ℤ}
use audistro_provider.Assets.Paths.{AssetRequest, Parsed, accepted, refused, parse_request}
use audistro_provider.Proxyguard.{Semaphore, acquire}
use audistro_provider.Assets.Serve.{
  Method, get, head, options, other, StorageMode, filesystem, proxy, hybrid, Handler, Opened, file,
  absent, symlink, not_regular, invalid_filename, failed, Signing, signed, sign_failed, sign_panics,
  signing_of, round_trip, Upstream, unsigned, unreachable, response, Answer, error_json, panicked,
  local_file, relayed, limited, Outcome, is_bounded, write_error_status, Local, served, unserved,
  try_serve_local, relay, behind_semaphore, of_local, of_hybrid, of_parsed, serve_proxy, World,
  serve_request, serve_http,
}

-- An answer with a body names where the body comes from: for a request of the path, a file that the
-- directory holds, where the mode looks there, or an answer of the origin, where the mode asks it
-- and the request was signed if it has to be.
-- Where the request is for a segment and there is a bound, the body is announced within the bound, or
-- goes through the limit.
pub data IsSourced (h : Handler) (w : World) (path : Text) : Answer → Type 0 where
  by_error : (status : ℕ) (code : Text) → IsSourced h w path (error_json status code)
  by_panic : IsSourced h w path panicked
  by_file :
      (req : AssetRequest) (size : ℤ)
      → parse_request h.assets_root path ≡ accepted req
      → w.opened req ≡ file size
      → h.mode ≢ proxy
      → ((is_bounded h req ≡ false) ⊎ (ltb_ℤ h.max_segment_bytes size ≡ false))
      → IsSourced h w path (local_file size)
  by_origin :
      (req : AssetRequest) (status : ℕ) (content_length : ℤ)
      → parse_request h.assets_root path ≡ accepted req
      → signing_of h.hmac (w.signing req) ≡ signed
      → w.upstream req ≡ response status content_length
      → h.mode ≢ filesystem
      → ((is_bounded h req ≡ false)
          ⊎ ((ltb_ℤ content_length (pos 0) ≡ false)
              × (ltb_ℤ h.max_segment_bytes content_length ≡ false)))
      → IsSourced h w path (relayed status content_length)
  by_limit :
      (req : AssetRequest) (status : ℕ) (content_length : ℤ)
      → parse_request h.assets_root path ≡ accepted req
      → signing_of h.hmac (w.signing req) ≡ signed
      → w.upstream req ≡ response status content_length
      → h.mode ≢ filesystem
      → is_bounded h req ≡ true
      → ltb_ℤ content_length (pos 0) ≡ true
      → IsSourced h w path (limited status)

write_error-IsSourced :
    (h : Handler) (w : World) (path : Text) (status : ℕ)
    → IsSourced h w path (write_error_status status)
unfolding write_error_status
write_error-IsSourced h w path status =
    split_if (IsSourced h w path) (status == 400) (λ e. by_error 400 _)
      (λ e.
        split_if (IsSourced h w path) (status == 404) (λ e. by_error 404 _)
          (λ e.
            split_if (IsSourced h w path) (status == 413) (λ e. by_error 413 _)
              (λ e. by_error 500 _)))

-- A file that is served locally is within the bound.
pub try_serve_local-served :
    (h : Handler) (req : AssetRequest) (o : Opened) (size : ℤ)
    → try_serve_local h req o ≡ served size
    → (o ≡ file size) × ((is_bounded h req ≡ false) ⊎ (ltb_ℤ h.max_segment_bytes size ≡ false))
unfolding try_serve_local
try_serve_local-served h req (file n) size e =
    elim (Bool-cases (is_bounded h req && ltb_ℤ h.max_segment_bytes n)) [
      | inl over ↦ cc (rw over at e)
      | inr within ↦
          let same : served n ≡ served size = rw within at e in
          let equal : n ≡ size = cc in rw (← equal) (refl, ground arith)
    ]
try_serve_local-served h req absent size e = cc
try_serve_local-served h req symlink size e = cc
try_serve_local-served h req not_regular size e = cc
try_serve_local-served h req invalid_filename size e = cc
try_serve_local-served h req failed size e = cc

module _ (h : Handler) (w : World) (path : Text) (req : AssetRequest)
    (parsed : parse_request h.assets_root path ≡ accepted req) where
  relay-IsSourced :
      (u : Upstream)
      → signing_of h.hmac (w.signing req) ≡ signed
      → w.upstream req ≡ u
      → h.mode ≢ filesystem
      → IsSourced h w path (relay h req u)
  unfolding relay
  relay-IsSourced unsigned s e m = by_error 503 _
  relay-IsSourced unreachable s e m = by_error 502 _
  relay-IsSourced (response status n) s e m =
      split_if (IsSourced h w path) (not (is_bounded h req))
        (λ free. by_origin req status n parsed s e m (inl (ground arith)))
        (λ bounded.
          split_if (IsSourced h w path) (ltb_ℤ h.max_segment_bytes n) (λ over. by_error 413 _)
            (λ within.
              split_if (IsSourced h w path) (ltb_ℤ n (pos 0))
                (λ unknown. by_limit req status n parsed s e m (ground arith) unknown)
                (λ known. by_origin req status n parsed s e m (inr (known, within)))))

  round_trip-IsSourced :
      (s : Signing)
      → signing_of h.hmac (w.signing req) ≡ s
      → h.mode ≢ filesystem
      → IsSourced h w path (round_trip h req s (w.upstream req)).0
  unfolding round_trip relay
  round_trip-IsSourced signed s m = relay-IsSourced (w.upstream req) s refl m
  round_trip-IsSourced sign_failed s m = by_error 502 _
  round_trip-IsSourced sign_panics s m = by_panic

  behind_semaphore-IsSourced :
      (admitted : Bool × Option Semaphore)
      → h.mode ≢ filesystem
      → IsSourced h w path (behind_semaphore h req (w.signing req) (w.upstream req) admitted).answer
  behind_semaphore-IsSourced (false, sem) m = by_error 503 _
  behind_semaphore-IsSourced (true, sem) m = round_trip-IsSourced _ refl m

  serve_proxy-IsSourced :
      (cancelled : Bool) (sem : Option Semaphore)
      → h.mode ≢ filesystem
      → IsSourced h w path (serve_proxy h req (w.signing req) (w.upstream req) cancelled sem).answer
  unfolding serve_proxy
  serve_proxy-IsSourced cancelled sem m =
      split_if (λ (o : Outcome). IsSourced h w path o.answer) (not h.has_proxy)
        (λ e. by_error 500 _)
        (λ e.
          split_if (λ (o : Outcome). IsSourced h w path o.answer) (h.hmac && not h.has_signer)
            (λ e'. by_error 503 _) (λ e'. behind_semaphore-IsSourced (acquire cancelled sem) m))

  of_local-IsSourced :
      (l : Local) (sem : Option Semaphore)
      → try_serve_local h req (w.opened req) ≡ l
      → h.mode ≢ proxy
      → IsSourced h w path (of_local l sem).answer
  of_local-IsSourced (served size) sem e m =
      let (found, within) = try_serve_local-served h req (w.opened req) size e in
      by_file req size parsed found m within
  of_local-IsSourced (unserved status) sem e m = write_error-IsSourced h w path status

  of_hybrid-IsSourced :
      (l : Local) (sem : Option Semaphore)
      → try_serve_local h req (w.opened req) ≡ l
      → h.mode ≡ hybrid
      → IsSourced h w path (of_hybrid h w req l sem).answer
  of_hybrid-IsSourced (served size) sem e m = of_local-IsSourced (served size) sem e (λ p. cc)
  of_hybrid-IsSourced (unserved status) sem e m =
      split_if (λ (o : Outcome). IsSourced h w path o.answer) (not (status == 404))
        (λ differs. write_error-IsSourced h w path status)
        (λ missing. serve_proxy-IsSourced w.cancelled sem (λ p. cc))

  serve_request-IsSourced :
      (mode : StorageMode) (sem : Option Semaphore)
      → h.mode ≡ mode
      → IsSourced h w path (serve_request mode h w req sem).answer
  unfolding serve_request
  serve_request-IsSourced filesystem sem m = of_local-IsSourced _ sem refl (λ p. cc)
  serve_request-IsSourced proxy sem m = serve_proxy-IsSourced w.cancelled sem (λ p. cc)
  serve_request-IsSourced hybrid sem m = of_hybrid-IsSourced _ sem refl m

of_parsed-IsSourced :
    (h : Handler) (w : World) (path : Text) (p : Parsed) (sem : Option Semaphore)
    → parse_request h.assets_root path ≡ p
    → IsSourced h w path (of_parsed h w p sem).answer
of_parsed-IsSourced h w path (refused status) sem e = write_error-IsSourced h w path status
of_parsed-IsSourced h w path (accepted req) sem e =
    serve_request-IsSourced h w path req e h.mode sem refl

-- Every answer is an error, the one of a panic among them, or its body is sourced: it comes from the file that the path names, in a
-- mode that looks there, or from the origin, in a mode that asks it, which got
-- the request signed in the mode hmac; and where the path names a
-- segment and there is a bound, its announced length is within the bound or it goes through the limit.
pub serve_http-IsSourced :
    (h : Handler) (w : World) (m : Method) (path : Text) (sem : Option Semaphore)
    → IsSourced h w path (serve_http h w m path sem).answer
unfolding serve_http
serve_http-IsSourced h w get path sem = of_parsed-IsSourced h w path _ sem refl
serve_http-IsSourced h w head path sem = of_parsed-IsSourced h w path _ sem refl
serve_http-IsSourced h w options path sem =
    split_if (IsSourced h w path) h.cors_enabled (λ e. by_error 403 _) (λ e. by_error 404 _)
serve_http-IsSourced h w other path sem = by_error 405 _
