-- ===== src/Tests/Files.antt =====
-- Runs of opening a file, of signing to the origin and of the server's chain.
use audistro_provider.Prelude.{
  ◌≡◌, refl, ◌↔◌, true, some, [], ◌∷◌, Text, text_eq, codes, arith, ◌/◌, ◌+◌,
}
use audistro_provider.Go.Time.{Instant, second, unix}
use audistro_provider.Httpserver.{no_route}
use audistro_provider.Httpserver.Middleware
use audistro_provider.Httpserver.Middleware.{Handler, write_header, write, server_handler}
use audistro_provider.Httpserver.Middleware.Logged.{IsLogged, server_handler-IsLogged}
use audistro_provider.Go.Int64.{pos}
use audistro_provider.Go.Strings.{hex, decimal, trim_space}
use audistro_provider.Go.Header.{Header}
use audistro_provider.Assets.Upstream.{Incoming, Origin}
use audistro_provider.Originauth.{
  path_or_root, Hmac, HmacSigner, canonical, sign_with_nonce, new_hmac_signer, Request, Signature,
  sign,
}
use audistro_provider.Originauth.Canonical
use audistro_provider.Originauth.Canonical.{signed_query, sign-canonical}
use audistro_provider.Tests.Fixtures.{noon, sevens, sevens-bytes}
use audistro_provider.Fssecure.{
  Disk, FileInfo, found, directory, regular, opened, open_file_no_symlinks,
}
use audistro_provider.Fssecure.Opening.{IsDirect, open_file_no_symlinks-opened_iff}

-- A directory with one regular file, which is opened.
abbrev playlist : FileInfo
playlist = record { file_type = regular; file_id = 3; size = pos 512 }

abbrev folder : FileInfo
folder = record { file_type = directory; file_id = 1; size = pos 64 }

abbrev disk : Disk
disk = record {
  root = found folder;
  target = found playlist;
  open_target = found playlist;
  stat = found playlist;
}

open_example :
    (open_file_no_symlinks disk (codes "a.ts") ≡ opened playlist)
    ↔ IsDirect disk (codes "a.ts") playlist
open_example = open_file_no_symlinks-opened_iff disk (codes "a.ts") playlist

-- Two requests of one second to an origin.
abbrev hmac : Hmac
hmac key message = 7 ∷ []

abbrev signer : HmacSigner
signer = new_hmac_signer [] (codes "secret") (codes "p") true

abbrev get : Request
get = record { method = codes "GET"; escaped_path = codes "/a"; raw_query = codes "q=1" }

abbrev nonce : Text
nonce = sevens 16

get-IsSound : Canonical.IsSound signer get noon nonce
unfolding new_hmac_signer text_eq
get-IsSound = record { target = refl; path = refl; time = omega arith; bytes = sevens-bytes 16 }

abbrev signature : Signature
signature = record {
  key_id = codes "v1";
  timestamp = decimal (unix noon);
  nonce = hex nonce;
  signature = hex (7 ∷ []);
  provider_id = codes "p";
}

signs : sign hmac signer get noon (some nonce) ≡ some signature
unfolding sign sign_with_nonce new_hmac_signer text_eq trim_space
signs = refl

-- The same request half a second later, under a new key.
abbrev rotated : HmacSigner
rotated = new_hmac_signer (codes "v2") (codes "other") (codes "p") true

abbrev later : Instant
later = noon + 500_000_000

rotated-IsSound : Canonical.IsSound rotated get later nonce
unfolding new_hmac_signer text_eq
rotated-IsSound = record { target = refl; path = refl; time = omega arith; bytes = sevens-bytes 16 }

rotated_signs :
    sign hmac rotated get later (some nonce) ≡ some (record signature { key_id = codes "v2" })
unfolding sign sign_with_nonce new_hmac_signer text_eq trim_space
rotated_signs = refl

same_message : canonical signer get noon nonce ≡ canonical rotated get later nonce
unfolding canonical new_hmac_signer
same_message = refl

canonical_example :
    (get.method ≡ get.method)
    × (path_or_root get.escaped_path ≡ path_or_root get.escaped_path)
    × (signed_query signer get ≡ signed_query rotated get)
    × (noon / second ≡ later / second)
    × (nonce ≡ nonce)
    × (signer.provider_id ≡ rotated.provider_id)
canonical_example =
    sign-canonical hmac signer rotated get get noon later nonce nonce signature
      (record signature { key_id = codes "v2" }) get-IsSound rotated-IsSound signs rotated_signs
      same_message

-- A handler that answers and then panics, and a contract that lets every request pass.
abbrev panics : Handler
panics r = record {
  calls = write_header 200 ∷ write 5 ∷ [];
  panicked = true;
  request_id_header = [];
  recovered = [];
  access = [];
  observed = [];
}

abbrev incoming : Middleware.Request
incoming = record { path = codes "/healthz"; content_type = []; context_id = [] }

IsLogged-example : IsLogged incoming (server_handler (codes "id") no_route 40 panics incoming)
IsLogged-example =
    server_handler-IsLogged (codes "id") no_route 40 panics incoming (refl, refl, refl)

-- A client that names a header in Connection and says itself where it comes from.
abbrev client_header : Header
client_header =
    (codes "Connection", codes "close, X-Token" ∷ [])
    ∷ (codes "X-Token", codes "t" ∷ [])
    ∷ (codes "X-Forwarded-For", codes "10.0.0.1" ∷ [])
    ∷ []

abbrev from_client : Incoming
from_client = record {
  path = codes "/assets/a/b.ts";
  raw_query = [];
  remote_addr = codes "192.0.2.1:9";
  tls = true;
}

abbrev origin : Origin
origin = record { scheme = codes "https"; host = codes "origin"; path = codes "/" }
