-- ===== src/Overview/Checkout.antt =====
-- frontend/src/pages/OverviewPage/components/TopUpModal/utils.ts: the form that is submitted for a payment.
use vpnshiki.Prelude.{[], ◌∷◌, Bool, List, String, map, ◌++◌, if◌then◌else◌, ◌≡◌, ap, true, refl}
use vpnshiki.Entities.Payments.{CheckoutMethod, YooMoneyCheckout}

pub record HtmlInput : Type 0 where
  pub name : String
  pub value : String

pub record HtmlForm : Type 0 where
  pub method : CheckoutMethod
  pub action : String
  pub inputs : List HtmlInput

abbrev input_of : String × String → HtmlInput
input_of f = record { name = f.0; value = f.1 }

-- The forms that stand in the document's body, and those that were submitted.
pub record Body : Type 0 where
  pub forms : List HtmlForm
  pub submitted : List HtmlForm

unfoldable pub checkout_form : YooMoneyCheckout → HtmlForm
checkout_form checkout = record {
  method = checkout.method;
  action = checkout.action;
  inputs = map input_of checkout.fields;
}

abbrev without_last : List HtmlForm → List HtmlForm
without_last [] = []
without_last (f ∷ []) = []
without_last (f ∷ g ∷ fs) = f ∷ without_last (g ∷ fs)

-- Appended at the end, submitted (`accepted` if that does not throw) and taken away in any case.
unfoldable pub submit_checkout_form : (accepted : Bool) → YooMoneyCheckout → Body → Body
unfolding checkout_form
submit_checkout_form accepted checkout body =
    let form = checkout_form checkout in
    let forms = body.forms ++ form ∷ [] in
    record {
      forms = without_last forms;
      submitted = if accepted then body.submitted ++ form ∷ [] else body.submitted;
    }

without_last-append : (fs : List HtmlForm) (f : HtmlForm) → without_last (fs ++ f ∷ []) ≡ fs
without_last-append [] f = refl
without_last-append (g ∷ []) f = refl
without_last-append (g ∷ h ∷ fs) f = ap (λ t. g ∷ t) (without_last-append (h ∷ fs) f)

names_values :
    (fields : List (String × String)) → map (λ i. (i.name, i.value)) (map input_of fields) ≡ fields
names_values [] = refl
names_values (f ∷ fs) = ap (λ t. f ∷ t) (names_values fs)

-- Whether or not the submission goes through, the document's body has the forms that it had before; a form that went
-- through carries the method and the action of the checkout and each of its fields under its name.
pub submit_checkout_form_lem :
    (accepted : Bool) (checkout : YooMoneyCheckout) (body : Body)
    → ((submit_checkout_form accepted checkout body).forms ≡ body.forms)
      × (accepted ≡ true
          → (form : HtmlForm) × ((submit_checkout_form accepted checkout body).submitted
              ≡ body.submitted ++ form ∷ [])
            × (form.method ≡ checkout.method)
            × (form.action ≡ checkout.action)
            × (map (λ i. (i.name, i.value)) form.inputs ≡ checkout.fields))
unfolding submit_checkout_form checkout_form
submit_checkout_form_lem accepted checkout body = (
  without_last-append body.forms (checkout_form checkout),
  λ h. (checkout_form checkout, rw h refl, refl, refl, names_values checkout.fields),
)
