-- ===== src/Catalog/Client.antt =====
-- internal/catalog/client.go and models.go: the answer of the catalog to a request, and the errors
-- that it becomes. The HTTP exchange is an argument: what the catalog answered.
use audistro_provider.Prelude.{
  ℕ, ◌≤◌, ◌<◌, ◌≡◌, Bool, true, false, ◌&&◌, ◌||◌, Option, none, some, arith, ltb, leb, ◌==◌,
  if◌then◌else◌, Text, ◌↔◌, ◌⊎◌, inl, inr, ◌≢◌,
}
use audistro_provider.Go.Int64.{ℤ}

-- The sentinel errors that `errors.Is` finds in an error's chain, or none of them.
pub data CatalogError : Type 0 where
  not_found unauthorized conflict bad_request server unexpected : CatalogError
  unconfigured other : CatalogError

pub record AnnounceRequest : Type 0 where
  pub asset_id : Text
  pub transport : Text
  pub base_url : Text
  pub priority : ℤ
  pub expires_in_seconds : ℤ
  pub expires_at : ℤ
  pub nonce : Text
  pub signature : Text

unfoldable pub status_error : ℕ → CatalogError
status_error status =
    if status == 400
    then bad_request
    else if status == 401 || status == 403
    then unauthorized
    else if status == 404
    then not_found
    else if status == 409
    then conflict
    else if leb 500 status
    then server
    else unexpected

-- The label of a reply in the metrics.
pub data ResultLabel : Type 0 where
  ok error unauthorized rejected server_error client_error : ResultLabel

unfoldable pub catalog_result : ℕ → ResultLabel
catalog_result status =
    if status == 401 || status == 403
    then ResultLabel.unauthorized
    else if status == 404
    then rejected
    else if leb 500 status
    then server_error
    else if leb 400 status
    then client_error
    else ok

-- What reading the JSON body of an answer gives; `empty` is io.EOF.
pub data Body : Type 0 where
  decoded empty malformed : Body

-- `doJSON`: an error before any answer, or the status of the answer with its body.
pub data Reply : Type 0 where
  failed : Reply
  answered : ℕ → Body → Reply

-- What `observeCatalog` is given beside the endpoint and the time.
pub record Observation : Type 0 where
  pub result : ResultLabel
  pub status : ℕ

abbrev is_success : ℕ → Bool
is_success status = leb 200 status && ltb status 300

abbrev observed : ResultLabel → ℕ → Observation
observed r status = record { result = r; status = status }

abbrev read_body : Body → ℕ → Option CatalogError × Observation
read_body malformed status = (some other, observed error status)
read_body _ status = (none, observed ok status)

-- `Announce`: its error, and the one observation that it makes. The response is not used.
unfoldable pub announce : Reply → Option CatalogError × Observation
unfolding status_error catalog_result
announce failed = (some other, observed error 0)
announce (answered status body) =
    if is_success status
    then read_body body status
    else (some (status_error status), observed (catalog_result status) status)

-- `EnsureProvider` behind its check of the public URL, which `has_url` is; the body is not read.
unfoldable pub ensure_provider : Bool → Reply → Option CatalogError × Observation
unfolding status_error catalog_result
ensure_provider false reply = (some other, observed error 0)
ensure_provider true failed = (some other, observed error 0)
ensure_provider true (answered status body) =
    if is_success status
    then (none, observed ok status)
    else (some (status_error status), observed (catalog_result status) status)

answered-eq-none_iff :
    (status : ℕ) (body : Body)
    → (((announce (answered status body)).0 ≡ none)
        ↔ ((200 ≤ status) × (status < 300) × (body ≢ malformed)))
      × (((announce (answered status body)).1.result ≡ ok) ↔ (
          ((announce (answered status body)).0 ≡ none)
          ⊎ ((status < 400) × ((status < 200) ⊎ (300 ≤ status)))))
unfolding announce
answered-eq-none_iff status decoded = grind arith
answered-eq-none_iff status _ = grind arith

-- The catalog answered, with a status and a body for which a predicate holds.
abbrev pub Answered : (ℕ → Body → Type 0) → Reply → Type 0
Answered P failed = ⊥
Answered P (answered status body) = P status body

-- An announcement succeeds exactly when the catalog answered a status from 200 to 299 with a body
-- that is empty or decodes, and the outcome is counted as ok exactly when it succeeds or the catalog
-- answered a status below 200 or from 300 to 399; so where no answer came, it fails and is not
-- counted as ok.
pub announce-eq-none_iff :
    (reply : Reply)
    → (((announce reply).0 ≡ none)
        ↔ Answered (λ status body. (200 ≤ status) × (status < 300) × (body ≢ malformed)) reply)
      × (((announce reply).1.result ≡ ok) ↔ (
          ((announce reply).0 ≡ none)
          ⊎ Answered (λ status body. (status < 400) × ((status < 200) ⊎ (300 ≤ status))) reply))
unfolding announce
announce-eq-none_iff failed = (
  ((λ e. cc), (λ (n : ⊥). absurd n)),
  ((λ e. cc), (λ h. elim h [ inl e ↦ cc | inr n ↦ absurd n ])),
)
announce-eq-none_iff (answered status body) = answered-eq-none_iff status body
