-- ===== src/Overlay/Snapshots.antt =====
-- The export of the settings as a snapshot, and its import (ExportConfig and ImportConfig of
-- internal/admin/export_import.go). A snapshot's map is the list of its entries, in the order in
-- which a walk meets them.
use codereviewer.Prelude.{ℕ, List, [], ◌∷◌, ◌++◌, map, Text, codes, text_eq, if◌then◌else◌}
use codereviewer.Ports.{Time, Result, ok, err, wrap}
use codereviewer.Schemas.Config.{Config}
use codereviewer.Overlay.{Setting, Surroundings, overlay_keys, is_overlay_key, read_current}

abbrev pub snapshot_config : Text
snapshot_config = codes "config"

pub record ConfigSnapshot : Type 0 where
  pub kind : Text
  pub version : ℕ
  pub exported_at : Time
  pub settings : List Setting

module _ (around : Surroundings) where
  abbrev pub setting_of : Config → Text → Setting
  setting_of cfg k = record { key = k; value = read_current around cfg k }

  unfoldable pub export_config : Config → Time → ConfigSnapshot
  export_config cfg now = record {
    kind = snapshot_config;
    version = 1;
    exported_at = now;
    settings = map (setting_of cfg) overlay_keys;
  }

-- what the settings store answers to a write, after the writes before it
abbrev pub SetAnswers : Type 0
SetAnswers = List Setting → Setting → Result (Unit {0})

-- the outcome, and the writes that worked, in order
abbrev pub Import : Type 0
Import = Result (Unit {0}) × List Setting

abbrev pub after_set : Text → List Setting → Import → Result (Unit {0}) → Import
after_set key written later (err e) = (err (wrap (codes "set " ++ key) e), written)
after_set key written later (ok _) = later

module _ (set : SetAnswers) where
  -- the unknown key at the end of the error's text is left out
  unfoldable pub import_settings : List Setting → List Setting → Import
  import_settings written [] = (ok tt, written)
  import_settings written (s ∷ ss) =
      let next = import_settings (written ++ s ∷ []) ss in
      if is_overlay_key s.key
      then after_set s.key written next (set written s)
      else (err (codes "import: unknown overlay key"), written)

  unfoldable pub import_config : ConfigSnapshot → Import
  import_config snap =
      if text_eq snap.kind snapshot_config
      then import_settings [] snap.settings
      else (err (codes "import: expected another kind"), [])
