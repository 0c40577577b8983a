-- ===== src/Vpn/Clipboard.antt =====
-- frontend/src/pages/OverviewPage/components/VpnAccessPanel/utils.ts: copying a text. The browser is given by
-- what its clipboard answers, `none` without one, and by whether its old command copies.
use vpnshiki.Prelude.{none, some, true, Option, String, Bool}

-- What was done: `writeText` or the command, on the text; and whether the promise is fulfilled.
pub data ClipboardCall : Type 0 where
  write_text exec_command : String → ClipboardCall

unfoldable pub copy_to_clipboard : Option Bool → Bool → String → ClipboardCall × Bool
copy_to_clipboard (some written) command value = (write_text value, written)
copy_to_clipboard none command value = (exec_command value, true)
