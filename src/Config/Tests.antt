-- ===== src/Config/Tests.antt =====
-- Runs of internal/config on small inputs, and the theorems at such inputs.
use gohome.Prelude.{String, ◌≡◌, refl, true, [], ◌∷◌, some}
use gohome.Config.Diff
use gohome.Config.Diff.{DriverInstance, diff}
use gohome.Config.Diff.Exact.{IsDiff, diff-IsDiff}
use gohome.Config.Merge.{Config, Discovered, DiscoveryResult, expected_id, merge_discovered}
use gohome.Config.Merge
use gohome.Config.Merge.Exact.{IsMerge, merge_discovered-IsMerge}

abbrev hashed : String → String → DriverInstance
hashed i h = record { id = i; config_hash = h }

abbrev before : Diff.ConfigSnapshot
before = record {
  driver_instances = hashed "hue" "1" ∷ hashed "mqtt" "2" ∷ [];
  automations = 3;
  dashboards = 1;
}

abbrev after : Diff.ConfigSnapshot
after = record {
  driver_instances = hashed "hue" "9" ∷ hashed "zigbee" "4" ∷ [];
  automations = 1;
  dashboards = 1;
}

diff_run : diff (some before) after ≡ record {
  driver_instances_added = "zigbee" ∷ [];
  driver_instances_removed = "mqtt" ∷ [];
  driver_instances_changed = "hue" ∷ [];
  automations_changed = Diff.negsuc 1;
  dashboards_changed = Diff.pos 0;
}
unfolding diff
diff_run = refl

diff-IsDiff_example : IsDiff (some before) after (diff (some before) after)
diff-IsDiff_example = diff-IsDiff (some before) after

id_of_file : expected_id "/etc/switchyard/automations/dusk.pkl" ≡ "dusk"
unfolding expected_id
id_of_file = refl

abbrev inline : Merge.ConfigSnapshot
inline = record {
  automations = record { id = "dawn"; body = 1 } ∷ [];
  areas = [];
  scenes = [];
  entity_areas = ("light.hall", "hall") ∷ [];
}

abbrev found : DiscoveryResult
found = record {
  automations =
      record { path = "automations/dusk.pkl"; config = record { id = "dusk"; body = 2 } }
      ∷ record { path = "automations/dawn.pkl"; config = record { id = "dawn"; body = 3 } }
      ∷ [];
  areas = [];
  scenes = [];
  entity_areas = ("light.hall", "hall") ∷ ("light.porch", "porch") ∷ [];
}

merge_fails : (merge_discovered inline found).2 ≡ true
unfolding merge_discovered expected_id
merge_fails = refl

merge_discovered-IsMerge_example :
    IsMerge inline found (merge_discovered inline found).0 (merge_discovered inline found).2
merge_discovered-IsMerge_example = merge_discovered-IsMerge inline found refl
