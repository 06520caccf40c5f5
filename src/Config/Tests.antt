-- ===== src/Config/Tests.antt =====
-- Runs of internal/config, and its theorems at concrete settings.
use waga_strim.Config.Save.{
  index_of, update_at, update, save_locked, settle, replace_unless, Attempt, Daemon,
  replace_ingests, replaced_stale, set_ingest, delay,
}
use waga_strim.Config.Load.{accept, text, new_config, load}
use waga_strim.Config.Keys.{is_stale, validate_from, valid_key, validate_ingests, stale_ingests}
use waga_strim.Config.Ingests.{
  members, find_ingest, clamp_floor, offered, clamp_delay, resolve, effective_delay, group_peers,
  delay_options, keep_codecs, normalise, normalise_ingest,
}
use waga_strim.Base.Int.{max_ℤ, min_ℤ, ℤ, pos, negsuc, ◌≤ℤ◌}
use Prim.Native.String.{String}
use waga_strim.Base.{◌≡◌, refl, ◌⊎◌, ◌↔◌, true, false, none, some, List, [], ◌∷◌, map}
use waga_strim.Dynamic.Options.{zero_options}
use waga_strim.Config.{Ingest, Config, receiver, write_config, duplicate_key, future_config}
use waga_strim.Config.Ingests.Groups.{group_shares_delay}
use waga_strim.Config.Ingests.Valid.{IsSound}
use waga_strim.Config.Save.Atomic.{perform, change, remove, perform_atomic}
use waga_strim.Config.Save.Replace.{Among, key_of, replaced_resolve}
use waga_strim.Config.Save.Sound.{run, loaded_run-IsSound}

abbrev goes_well : Attempt
goes_well = record {
  makes_directory = true;
  encodes = true;
  creates = true;
  writes = true;
  syncs = true;
  closes = true;
  renames = true;
}

abbrev disk_full : Attempt
disk_full = record goes_well { syncs = false }

abbrev front : Ingest
front = record {
  options = record zero_options { enabled = true };
  id = "front";
  label = "Front";
  sender_key = "s_00000000000000000000000000000001";
  receiver_key = "r_00000000000000000000000000000001";
  codecs = "av1" ∷ "h264" ∷ [];
  delay_ms = pos 1500;
  sync_group = "stage";
}

abbrev back : Ingest
back = record front {
  id = "back";
  label = "Back";
  sender_key = "s_00000000000000000000000000000002";
  receiver_key = "r_00000000000000000000000000000002";
  codecs = [];
  delay_ms = pos 90_000;
}

abbrev two : Config
two = record new_config { ingests = front ∷ back ∷ [] }

abbrev daemon : Daemon
daemon = record { config = new_config; file = some new_config }

abbrev running : Daemon
running = record { config = normalise two; file = some two }

clamped :
    map {B = ℤ × List String} (λ (ing : Ingest). (ing.delay_ms, ing.codecs)) (normalise two).ingests
    ≡ (pos 1500, "h264" ∷ "av1" ∷ []) ∷ (pos 10_000, "h264" ∷ []) ∷ []
unfolding normalise normalise_ingest clamp_delay keep_codecs min_ℤ offered max_ℤ clamp_floor
clamped = refl

peers : group_peers two "back" ≡ "front" ∷ "back" ∷ []
unfolding group_peers find_ingest members
peers = refl

upper_case_refused : valid_key "s_" "s_0000000000000000000000000000000A" ≡ false
unfolding valid_key
upper_case_refused = refl

twice_refused :
    validate_ingests (front ∷ record back { sender_key = front.sender_key } ∷ [])
    ≡ some duplicate_key
unfolding validate_ingests validate_from valid_key
twice_refused = refl

codec_change_is_stale :
    replaced_stale goes_well running (front ∷ record back { codecs = "av1" ∷ [] } ∷ [])
    ≡ "back" ∷ []
unfolding replaced_stale replace_ingests replace_unless validate_ingests validate_from valid_key
    settle save_locked stale_ingests normalise is_stale find_ingest normalise_ingest keep_codecs
    offered
codec_change_is_stale = refl

newer_file_refused :
    load (λ raw c. some (record c { version = pos 2 })) goes_well true (text "{}")
    ≡ (none, some future_config)
unfolding load accept
newer_file_refused = refl

failed_save_undone :
    set_ingest disk_full running "back" (delay (pos 100)) ≡ (running, some write_config)
unfolding set_ingest update update_at index_of normalise normalise_ingest settle save_locked
failed_save_undone = refl

abbrev replaced_daemon : Daemon
replaced_daemon = (replace_ingests goes_well daemon two.ingests).0

replaced_ok : replace_ingests goes_well daemon two.ingests ≡ (replaced_daemon, none)
unfolding replace_ingests validate_ingests replace_unless validate_from valid_key settle save_locked
replaced_ok = refl

perform_atomic_example :
    let (d', e) = perform disk_full running (change "back" (delay (pos 100))) in
    (d' ≡ running) ⊎ ((e ≡ none) × (d'.file ≡ some d'.config))
perform_atomic_example = perform_atomic disk_full running (change "back" (delay (pos 100)))

abbrev second : Ingest
second = normalise_ingest none back

replaced_resolve_example :
    (replaced_daemon.config.ingests ≡ map (normalise_ingest none) two.ingests)
    × ((resolve replaced_daemon.config "r_00000000000000000000000000000002"
          ≡ some (second, receiver))
        ↔ (Among second replaced_daemon.config.ingests
            × ("r_00000000000000000000000000000002" ≡ key_of receiver second)))
replaced_resolve_example =
    replaced_resolve goes_well daemon replaced_daemon two.ingests
      "r_00000000000000000000000000000002" second receiver replaced_ok

group_shares_delay_example :
    (effective_delay two "front" ≡ effective_delay two "back")
    × (pos 90_000 ≤ℤ effective_delay two "front")
    × ((delay_options two "front").enabled ≡ false)
    × ((delay_options two "back").enabled ≡ false)
unfolding find_ingest
group_shares_delay_example =
    group_shares_delay two "front" "back" front back back refl refl (λ e. cc) refl
      (front ∷ [], [], refl, refl)

loaded_run-IsSound_example :
    IsSound
      (run running
        ((disk_full, change "back" (delay (negsuc 0))) ∷ (goes_well, remove "front") ∷ [])).config
unfolding load accept
loaded_run-IsSound_example =
    loaded_run-IsSound (λ raw c. some two) goes_well true (text "{}")
      (record { config = normalise two; file = some two }) none
      ((disk_full, change "back" (delay (negsuc 0))) ∷ (goes_well, remove "front") ∷ []) refl
