-- ===== src/Api/Contact.antt =====
-- frontend/lib/api.ts, `sendContactMessage`.
use rank_verse.Base.Text.{Text, codes}
use rank_verse.Base.{String, true, Option, none, some, List, [], ◌∷◌, ◌++◌, if◌then◌else◌, ◌==◌}
use rank_verse.Base.Text.{join, text_eq}
use rank_verse.Account.Retry.{is_ok}
use rank_verse.Api.Client.{
  Net, Client, unset, settle, ok, err, error, ◌>>=◌, with_auth_retry, truthy, or_text, payload,
  Answer,
}

-- A field of the contact form as a message names it.
abbrev contact_label : Text → Option Text
contact_label f =
    if text_eq f (codes "email")
    then some (codes "\u{627}\u{6cc}\u{645}\u{6cc}\u{644}")
    else if text_eq f (codes "subject")
    then some (codes "\u{639}\u{646}\u{648}\u{627}\u{646}")
    else if text_eq f (codes "message")
    then some (codes "\u{645}\u{62a}\u{646} \u{67e}\u{6cc}\u{627}\u{645}")
    else if text_eq f (codes "page_url")
    then some (codes "\u{644}\u{6cc}\u{646}\u{6a9} \u{635}\u{641}\u{62d}\u{647}")
    else if text_eq f (codes "name")
    then some (codes "\u{646}\u{627}\u{645}")
    else none

-- `fields.map((f) => label[f]).filter(Boolean)`
abbrev contact_labels : List Text → List Text
contact_labels [] = []
contact_labels (f ∷ fs) = elim (contact_label f) [
  | none ↦ contact_labels fs
  | some label ↦ label ∷ contact_labels fs
]

abbrev contact_invalid : List Text → Text
contact_invalid [] =
    codes
      "\u{644}\u{637}\u{641}\u{627}ً \u{641}\u{6cc}\u{644}\u{62f}\u{647}\u{627}\u{6cc} \u{641}\u{631}\u{645} \u{631}\u{627} \u{628}\u{631}\u{631}\u{633}\u{6cc} \u{6a9}\u{646}."
contact_invalid (n ∷ ns) =
    join (codes "، ") (n ∷ ns)
    ++ codes
        " \u{645}\u{639}\u{62a}\u{628}\u{631} \u{646}\u{6cc}\u{633}\u{62a}\u{61b} \u{644}\u{637}\u{641}\u{627}ً \u{628}\u{631}\u{631}\u{633}\u{6cc} \u{6a9}\u{646}."

module _ {S J : Type 0} (net : Net S J) where
  abbrev error_of : Option J → Option Text
  error_of none = none
  error_of (some json) = net.error json

  abbrev fields_of : Option J → List Text
  fields_of none = []
  fields_of (some json) = net.detail_fields json

  -- A failed answer of the contact form; its body may not parse.
  unfoldable pub contact_failure : Answer J → Text
  contact_failure res =
      if res.status == 429
      then or_text (error_of res.body) (
          codes
            "\u{62a}\u{639}\u{62f}\u{627}\u{62f} \u{67e}\u{6cc}\u{627}\u{645}\u{200c}\u{647}\u{627} \u{632}\u{6cc}\u{627}\u{62f} \u{627}\u{633}\u{62a}. \u{6a9}\u{645}\u{6cc} \u{628}\u{639}\u{62f} \u{62f}\u{648}\u{628}\u{627}\u{631}\u{647} \u{627}\u{645}\u{62a}\u{62d}\u{627}\u{646} \u{6a9}\u{646}.")
      else if res.status == 422
      then contact_invalid (contact_labels (fields_of res.body))
      else codes
          "\u{627}\u{631}\u{633}\u{627}\u{644} \u{67e}\u{6cc}\u{627}\u{645} \u{645}\u{645}\u{6a9}\u{646} \u{646}\u{634}\u{62f}. \u{62f}\u{648}\u{628}\u{627}\u{631}\u{647} \u{627}\u{645}\u{62a}\u{62d}\u{627}\u{646} \u{6a9}\u{646}."

  unfoldable pub send_contact_message : J → Option String → Client S (Unit {0})
  unfolding contact_failure
  send_contact_message json token = do
    res ← with_auth_retry net record {
      path = codes "/contact";
      authorization = truthy token;
      rest = record {
        method = codes "POST";
        json_content = true;
        guest = none;
        body = some (payload json);
        cache = unset;
      };
    }
    settle (if is_ok res.status then ok tt else err (error (contact_failure res)))
