-- ===== src/Replay/Setup.antt =====
-- The constructor of ReplayProtectionService.
use encryption_gateway.Prelude.{[], false, Result, ok, ◌>>=◌}
use encryption_gateway.Config.{Config, positive_integer, strict_boolean}
use encryption_gateway.Replay.{ReplayProtection}

unfoldable pub replay_protection : Config → Result ReplayProtection
replay_protection config = do
  is_required ← strict_boolean config "REQUIRE_REQUEST_NONCE" false
  max_skew_ms ← positive_integer config "REQUEST_MAX_SKEW_MS" 60000
  max_entries ← positive_integer config "REPLAY_CACHE_MAX_ENTRIES" 10000
  ok (record {
    is_required = is_required;
    max_skew_ms = max_skew_ms;
    max_entries = max_entries;
    seen = [];
  })
