-- ===== src/Vpn/Panel/Laws.antt =====
-- The panel shows and copies links of the account's profiles alone, and its keys select a tab.
use vpnshiki.Vpn.Panel.{
  tab_clicked, tab_key, subscription_copy, subscription_qr, qr_copy, qr_closed, connection_copy,
  connection_qr, copy_ended, millisecond, PanelEvent, VpnPanel, copy, end_copy, on_profile,
  panel_run, select_profile, shown_connection, initial, panel_step, selected_profile,
  copy_connection, copy_target, show_connection_qr, QrTarget,
}
use vpnshiki.Prelude.{
  ℕ, none, some, [], ◌∷◌, true, false, refl, All, String, All-mono, List, ◌≡◌, Bool, Mem, Option,
  All-Mem, WhenSome, if◌then◌else◌, get_elem?-WhenSome,
}
use vpnshiki.Text.{Text}
use vpnshiki.Entities.VpnAccess.{VpnClientProfile, VpnConnection}
use Prim.Native.Nat.{Ordering}
use vpnshiki.Vpn.Connections.{sorted_connections, by_protocol}
use vpnshiki.Prelude.Sorting.{All-sort}

-- A link of a profile: that of its subscription or of one of its connections.
pub data Owns (p : VpnClientProfile) (url : String) : Type 0 where
  subscription : url ≡ p.subscription_url → Owns p url
  connection : (c : VpnConnection) → Mem c p.connections → url ≡ c.url → Owns p url

connections-Owns : (p : VpnClientProfile) → All (λ c. Owns p c.url) p.connections
connections-Owns p =
    All-mono (λ c. Mem c p.connections) (λ c. Owns p c.url) (λ c h. connection c h refl)
      p.connections (All-Mem p.connections)

module _ (collate : Text → Text → Ordering) (profiles : List VpnClientProfile) where
  shown_connection-Owns :
      (p : VpnClientProfile) (i : ℕ)
      → WhenSome (λ c. Owns p c.url) (shown_connection collate profiles p i)
  unfolding shown_connection sorted_connections
  shown_connection-Owns p i =
      get_elem?-WhenSome (λ c. Owns p c.url) (sorted_connections collate p.connections) i
        (All-sort (by_protocol collate) (λ c. Owns p c.url) p.connections (connections-Owns p))

  abbrev pub IsOfSelected : Option String → String → Type 0
  IsOfSelected preferred url =
      (p : VpnClientProfile) × (selected_profile profiles preferred ≡ some p) × Owns p url

  abbrev pub IsOfAccount : String → Type 0
  IsOfAccount url = (preferred : Option String) × IsOfSelected preferred url

  -- The code that is shown is of a link of the selected profile, and what was copied of the account's.
  pub record IsOwn (s : VpnPanel) : Type 0 where
    pub shown : WhenSome (λ t. IsOfSelected s.preferred_email t.url) s.qr_target
    pub copies : All IsOfAccount s.copied

  copy-IsOwn :
      (s : VpnPanel) (url : String)
      → IsOfSelected s.preferred_email url
      → IsOwn s
      → IsOwn (copy url s)
  unfolding copy
  copy-IsOwn s url h w = record { shown = w.shown; copies = ((s.preferred_email, h), w.copies) }

  select_profile-IsOwn : (s : VpnPanel) (o : Option String) → IsOwn s → IsOwn (select_profile o s)
  unfolding select_profile
  select_profile-IsOwn s none w = w
  select_profile-IsOwn s (some email) w = record { shown = tt; copies = w.copies }

  module _ (s : VpnPanel) (w : IsOwn s) (p : VpnClientProfile)
      (h : selected_profile profiles s.preferred_email ≡ some p) where
    copy_connection-IsOwn :
        (o : Option VpnConnection)
        → WhenSome (λ c. Owns p c.url) o
        → IsOwn (copy_connection collate profiles o s)
    unfolding copy_connection
    copy_connection-IsOwn none k = w
    copy_connection-IsOwn (some c) k = copy-IsOwn s c.url (p, h, k) w

    show_connection_qr-IsOwn :
        (o : Option VpnConnection)
        → WhenSome (λ c. Owns p c.url) o
        → IsOwn (show_connection_qr collate profiles o s)
    unfolding show_connection_qr
    show_connection_qr-IsOwn none k = w
    show_connection_qr-IsOwn (some c) k = record { shown = (p, h, k); copies = w.copies }

    copy_target-IsOwn :
        (o : Option QrTarget)
        → WhenSome (λ t. IsOfSelected s.preferred_email t.url) o
        → IsOwn (copy_target collate profiles o s)
    unfolding copy_target
    copy_target-IsOwn none k = w
    copy_target-IsOwn (some t) k = copy-IsOwn s t.url k w

  end_copy-IsOwn : (s : VpnPanel) (b : Bool) → IsOwn s → IsOwn (end_copy s b)
  unfolding end_copy
  end_copy-IsOwn s b w = record { shown = w.shown; copies = w.copies }

  if-IsOwn : (b : Bool) (s t : VpnPanel) → IsOwn s → IsOwn t → IsOwn (if b then s else t)
  if-IsOwn true s t h k = h
  if-IsOwn false s t h k = k

  on_profile-IsOwn :
      (s : VpnPanel) (e : PanelEvent) (o : Option VpnClientProfile)
      → selected_profile profiles s.preferred_email ≡ o
      → IsOwn s
      → IsOwn (on_profile collate profiles s e o)
  unfolding on_profile
  on_profile-IsOwn s (tab_clicked i) (some p) h w = if-IsOwn _ _ _ (select_profile-IsOwn s _ w) w
  on_profile-IsOwn s (tab_key i key) (some p) h w = if-IsOwn _ _ _ (select_profile-IsOwn s _ w) w
  on_profile-IsOwn s subscription_copy (some p) h w =
      copy-IsOwn s p.subscription_url (p, h, subscription refl) w
  on_profile-IsOwn s subscription_qr (some p) h w = record {
    shown = (p, h, subscription refl);
    copies = w.copies;
  }
  on_profile-IsOwn s (connection_copy i) (some p) h w =
      copy_connection-IsOwn s w p h _ (shown_connection-Owns p i)
  on_profile-IsOwn s (connection_qr i) (some p) h w =
      show_connection_qr-IsOwn s w p h _ (shown_connection-Owns p i)
  on_profile-IsOwn s qr_copy (some p) h w = copy_target-IsOwn s w p h s.qr_target w.shown
  on_profile-IsOwn s qr_closed (some p) h w = record { shown = tt; copies = w.copies }
  on_profile-IsOwn s (copy_ended b) (some p) h w = end_copy-IsOwn s b w
  on_profile-IsOwn s (copy_ended b) none h w = end_copy-IsOwn s b w
  on_profile-IsOwn s millisecond o h w = record { shown = w.shown; copies = w.copies }
  on_profile-IsOwn s (tab_clicked i) none h w = w
  on_profile-IsOwn s (tab_key i key) none h w = w
  on_profile-IsOwn s subscription_copy none h w = w
  on_profile-IsOwn s subscription_qr none h w = w
  on_profile-IsOwn s (connection_copy i) none h w = w
  on_profile-IsOwn s (connection_qr i) none h w = w
  on_profile-IsOwn s qr_copy none h w = w
  on_profile-IsOwn s qr_closed none h w = w

  panel_run-IsOwn :
      (s : VpnPanel) (es : List PanelEvent) → IsOwn s → IsOwn (panel_run collate profiles s es)
  unfolding panel_run panel_step
  panel_run-IsOwn s [] w = w
  panel_run-IsOwn s (e ∷ es) w =
      panel_run-IsOwn (panel_step collate profiles s e) es
        (on_profile-IsOwn s e (selected_profile profiles s.preferred_email) refl w)

  -- Whatever is clicked and pressed, a QR code that is open is that of a link of the profile selected at
  -- that moment, and every link that was given to the clipboard is one of the account's.
  pub panel_run-initial-IsOwn :
      (es : List PanelEvent) → IsOwn (panel_run collate profiles initial es)
  panel_run-initial-IsOwn es = panel_run-IsOwn initial es (record { shown = tt; copies = tt })
