-- ===== src/Tests/Fixtures.antt =====
-- The data that the runs share: two assets, a database that knows one of them, and an announcer.
use audistro_provider.Prelude.{
  All, suc, zero, ◌<◌, arith, ℕ, ◌*◌, Text, codes, none, some, [], ◌∷◌, true,
}
use audistro_provider.Go.Int64.{pos}
use audistro_provider.Go.Time.{Instant, second}
use audistro_provider.Scanner.{Asset, ScanResult}
use audistro_provider.Repository.Db.{
  AssetStatus, AssetRow, AnnouncementStatus, StoredAnnouncement, at, Db,
}
use audistro_provider.Jobs.Backoff.{BackoffConfig, BackoffState, Jitter}
use audistro_provider.Jobs.Sweep.{SweepEnv}
use audistro_provider.Catalog.Client.{answered, decoded}

abbrev pub song : Text
song = codes "song"

abbrev pub talk : Text
talk = codes "talk"

-- 2020-01-01 or thereabouts.
abbrev pub noon : Instant
noon = 63_700_000_000 * second

abbrev pub asset_of : Text → Asset
asset_of id = record {
  asset_id = id;
  master_playlist_path = [];
  content_hash = [];
  file_count = 2;
  total_size_bytes = pos 2048;
  last_scanned_at = noon;
}

abbrev pub song_scan : ScanResult
song_scan = record { assets = asset_of song ∷ []; scanned_assets = 1; duration = pos 7 }

abbrev pub row_in : AssetStatus → AssetRow
row_in status = record {
  status = status;
  master_playlist_path = [];
  content_hash = [];
  file_count = 1;
  total_size_bytes = pos 512;
  last_scanned_at = 5;
  created_at = 3;
  updated_at = 5;
  missing_at = none;
}

abbrev pub announced : ℕ → StoredAnnouncement
announced expiry = record {
  last_announced_at = at 10;
  expires_at = at expiry;
  status = AnnouncementStatus.ok;
  created_at = at 10;
  updated_at = at 10;
}

-- A database that knows the talk, and an announcement of it.
abbrev pub talk_db : AssetStatus → Db
talk_db status = record {
  assets = (talk, row_in status) ∷ [];
  announcements = (talk, announced 1000) ∷ [];
  foreign_keys = true;
  faults = [];
}

abbrev pub delays : BackoffConfig
delays = record {
  base = pos (2 * second);
  max = pos (600 * second);
  rejected_retry = pos (3600 * second);
  unauthorized_retry = pos (60 * second);
}

abbrev pub no_failures : BackoffState
no_failures = record { entries = []; cfg = delays }

-- The draw that is always 0.
abbrev pub least : Jitter
least n = pos 0

abbrev pub agreeing : SweepEnv
agreeing = record {
  announcer = record {
    provider_id = codes "p";
    public_base_url = codes "https://p";
    transport = codes "https";
    announce_priority = pos 1;
    announce_expires_seconds = pos 600;
  };
  reannounce_threshold_seconds = pos 60;
  crypto = λ id. record { nonce = some (codes "n"); sha256 = λ t. t; sign = λ t. some t };
  reply = λ req. answered 200 decoded;
  jitter = λ id. least;
}

-- Bytes for keys and nonces.
abbrev pub sevens : ℕ → Text
sevens zero = []
sevens (suc n) = 7 ∷ sevens n

pub sevens-bytes : (n : ℕ) → All (λ b. b < 256) (sevens n)
sevens-bytes zero = tt
sevens-bytes (suc n) = (omega arith, sevens-bytes n)
