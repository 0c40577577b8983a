-- ===== src/Vpn/Panel/Keys.antt =====
-- The keys of the tabs select the profiles of the panel.
use vpnshiki.Vpn.Tabs.{
  arrow_right, arrow_left, home, end_key, other, next_index, TabKey, selected_by_key,
}
use vpnshiki.Prelude.{
  ℕ, some, [], ◌∷◌, zero, suc, true, inl, inr, refl, List, ◌<◌, All, get_elem?, length, ◌≡◌, Option,
  arith, find, ◌≢◌, String, Option-cases, str_eq, eq_iff, ap, WhenSome, ◌+◌, get_elem?-WhenSome,
  ◌%◌, lt→ltb, sym, ◌-◌, subst, get_elem?_within,
}
use vpnshiki.Text.{Text}
use Prim.Native.Nat.{Ordering}
use vpnshiki.Entities.VpnAccess.{VpnClientProfile}
use vpnshiki.Vpn.Panel.{
  VpnPanel, selected_profile, panel_step, has_email, tab_key, on_profile, select_profile, panel_run,
}
use vpnshiki.Ui.FieldSelect.{next_position, down}
use vpnshiki.Ui.FieldSelect.Cycle.{next_position-opposite}
use native.Mathlib.Nat.{add-mod_right, mod-lt}

-- No two profiles of the list have the same email, as the keys of the tabs ask.
abbrev pub IsDistinct : List VpnClientProfile → Type 0
IsDistinct [] = Unit
IsDistinct (p ∷ ps) = All (λ q. p.email ≢ q.email) ps × IsDistinct ps

find_email_at :
    (ps : List VpnClientProfile) (i : ℕ) (p : VpnClientProfile)
    → IsDistinct ps
    → get_elem? ps i ≡ some p
    → find (has_email (some p.email)) ps ≡ some p
find_email_at [] i p d h = cc
find_email_at (q ∷ ps) zero p d h =
    let same : q ≡ p = cc in
    let hit : str_eq q.email p.email ≡ true = (eq_iff q.email p.email).1 (ap (λ r. r.email) same) in
    ground (arith, hit, h)
find_email_at (q ∷ ps) (suc i) p (ds, d) h =
    let other_email : WhenSome (λ r. q.email ≢ r.email) (get_elem? ps i) =
      get_elem?-WhenSome (λ r. q.email ≢ r.email) ps i ds in
    let differs : q.email ≢ p.email = rw h at other_email in
    ground (arith, eq_iff q.email p.email, differs, find_email_at ps i p d h)

next_index_within : (n i j : ℕ) (key : TabKey) → i < n → next_index n i key ≡ some j → j < n
unfolding next_index
next_index_within n i j arrow_right h e =
    let bound : (i + 1) % n < n = mod-lt (i + 1) (omega (arith, h)) in ground (arith, e, bound)
next_index_within n i j arrow_left h e =
    let bound : (i + n - 1) % n < n = mod-lt (i + n - 1) (omega (arith, h)) in
    ground (arith, e, bound)
next_index_within n i j home h e = ground (arith, e, h)
next_index_within n i j end_key h e = ground (arith, e, h)
next_index_within n i j other h e = cc

next_index-opposite :
    (n i : ℕ)
    → i < n
    → (j : ℕ) × (next_index n i arrow_right ≡ some j) × (next_index n j arrow_left ≡ some i)
unfolding next_index next_position
next_index-opposite n i h =
    let (within, back) = next_position-opposite down n i h in
    (next_position down (some i) n, ap some (sym (add-mod_right (i + 1) n)), ap some back)

module _ (collate : Text → Text → Ordering) (profiles : List VpnClientProfile) where
  selected_profile-some :
      (o : Option String)
      → 0 < length profiles
      → (p : VpnClientProfile) × (selected_profile profiles o ≡ some p)
  unfolding selected_profile
  selected_profile-some o h = elim (Option-cases (find (has_email o) profiles)) [
    | inl missed ↦ rw missed (get_elem?_within profiles 0 h)
    | inr (p, found) ↦ rw found (p, refl)
  ]

  -- In a panel with several profiles, whose emails differ, a key of a tab that leads to a tab selects the
  -- profile at that tab, which is one of the list.
  pub panel_step-tab_key :
      (s : VpnPanel) (i j : ℕ) (key : TabKey)
      → IsDistinct profiles
      → 1 < length profiles
      → i < length profiles
      → next_index (length profiles) i key ≡ some j
      → (j < length profiles)
        × (selected_profile profiles (panel_step collate profiles s (tab_key i key)).preferred_email
            ≡ get_elem? profiles j)
  unfolding panel_step on_profile select_profile selected_by_key selected_profile
  panel_step-tab_key s i j key d many h e =
      let within : j < length profiles = next_index_within (length profiles) i j key h e in
      let (q, current) = selected_profile-some s.preferred_email (omega (arith, h)) in
      let (p, there) = get_elem?_within profiles j within in
      let found : find (has_email (some p.email)) profiles ≡ some p =
        find_email_at profiles j p d there in
      (within, rw (current, e, lt→ltb 1 (length profiles) many, there, found) refl)

  -- In such a panel the left arrow, pressed on the tab that the right arrow led to, selects the profile of
  -- the first tab again, from the last tab as well.
  pub panel_run-arrows :
      (s : VpnPanel) (i j : ℕ)
      → IsDistinct profiles
      → 1 < length profiles
      → i < length profiles
      → next_index (length profiles) i arrow_right ≡ some j
      → selected_profile profiles
          (panel_run collate profiles s
            (tab_key i arrow_right ∷ tab_key j arrow_left ∷ [])).preferred_email
        ≡ get_elem? profiles i
  unfolding panel_run
  panel_run-arrows s i j d many h e =
      let first = panel_step-tab_key s i j arrow_right d many h e in
      let (k, right, left) = next_index-opposite (length profiles) i h in
      let same : k ≡ j = cc in
      let back : next_index (length profiles) j arrow_left ≡ some i =
        subst (λ m. next_index (length profiles) m arrow_left ≡ some i) same left in
      (panel_step-tab_key (panel_step collate profiles s (tab_key i arrow_right)) j i arrow_left d
        many first.0 back).1
