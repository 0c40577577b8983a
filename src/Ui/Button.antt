-- ===== src/Ui/Button.antt =====
-- frontend/src/shared/ui/Button/Button.tsx
use vpnshiki.Prelude.{Bool, not, ◌||◌}

pub record Button : Type 0 where
  pub disabled : Bool
  pub loading : Bool

-- A disabled button takes no clicks.
unfoldable pub takes_clicks : Button → Bool
takes_clicks b = not (b.disabled || b.loading)
