-- ===== src/Views/Badge.antt =====
-- frontend/src/components/common/Badge.tsx: the badge that the views show a status in.
use arka.Prelude.{Bool, Option, Text, codes, ◌++◌}

pub data Variant : Type 0 where
  neutral primary success warning danger : Variant

pub record Badge : Type 0 where
  pub variant : Variant
  pub text : Text
  pub pulse_dot : Bool
  pub title : Option Text

abbrev pub variant_text : Variant → Text
variant_text neutral = codes "neutral"
variant_text primary = codes "primary"
variant_text success = codes "success"
variant_text warning = codes "warning"
variant_text danger = codes "danger"

unfoldable pub variant_class : Badge → Text
variant_class b = codes "badge-" ++ variant_text b.variant
