-- ===== src/Axeos/Parser/SystemInfo/Rejections.antt =====
-- About the counts of the share rejection reasons.
use bitaxe_fleet.Prelude.{Option, none, some, List, [], ◌∷◌, All, ℤ, pos, ◌≤ℤ◌}
use bitaxe_fleet.Python.Text.{Text, codes}
use bitaxe_fleet.Python.Value.{Value, Items, nil, cons, null, array}
use bitaxe_fleet.Python.Dict.{Dict}
use bitaxe_fleet.Python.Library.{Library}
use bitaxe_fleet.Axeos.Errors.{Error, Result, err, Ensures, Ensures-bind, Ensures-ok, or_raise}
use bitaxe_fleet.Axeos.Models.{ShareRejectionReason}
use bitaxe_fleet.Axeos.Parser.MinerId.{system_info_operation}
use bitaxe_fleet.Axeos.Parser.Fields.{required_int, required_text, as_string_keyed_mapping, get}
use bitaxe_fleet.Axeos.Parser.Fields.Ranges.{IntIn, optional_int-IntIn}
use bitaxe_fleet.Axeos.Parser.SystemInfo.{
  op, rejection_reason, rejection_reasons, read_rejection_reasons, optional_share_rejection_reasons,
}

-- No reason counts fewer than no shares.
abbrev pub HasCounts : Option (List ShareRejectionReason) → Type 0
HasCounts none = Unit
HasCounts (some reasons) = All (λ (r : ShareRejectionReason). pos 0 ≤ℤ r.count) reasons

raised-Ensures : {A : Type 0} {P : A → Type 0} (e : Error) → Ensures P (err e)
raised-Ensures e = record { of_ok = λ a h. cc }

or_raise-Ensures :
    (o : Option ℤ) (e : Error) → IntIn (pos 0) none o → Ensures (λ n. pos 0 ≤ℤ n) (or_raise o e)
or_raise-Ensures none e h = raised-Ensures e
or_raise-Ensures (some n) e h = Ensures-ok n h.0

any : {A : Type 0} (r : Result A) → Ensures (λ _. Unit {0}) r
any r = record { of_ok = λ _ _. tt }

module _ (lib : Library) where
  required_int-Ensures :
      (reason : Dict Value) (key : Text)
      → Ensures (λ n. pos 0 ≤ℤ n) (required_int lib reason key (pos 0))
  unfolding required_int
  required_int-Ensures reason key =
      Ensures-bind
        (record {
          of_ok = λ o. optional_int-IntIn lib reason key system_info_operation (pos 0) none;
        })
        (λ o h. or_raise-Ensures o _ h)

  reason-Ensures : (item : Value) → Ensures (λ r. pos 0 ≤ℤ r.count) (rejection_reason lib item)
  unfolding rejection_reason
  reason-Ensures item = Ensures-bind (any (as_string_keyed_mapping item op)) λ reason _.
      Ensures-bind (any (required_text lib reason (codes "message") op)) λ message _.
        Ensures-bind (required_int-Ensures reason (codes "count")) λ count h. Ensures-ok _ h

  reasons-Ensures :
      (items : Items)
      → Ensures
          (λ rs. All (λ (r : ShareRejectionReason). pos 0 ≤ℤ r.count) rs)
          (rejection_reasons lib items)
  unfolding rejection_reasons
  reasons-Ensures nil = Ensures-ok [] tt
  reasons-Ensures (cons item rest) =
      Ensures-bind (reason-Ensures item)
        λ r h. Ensures-bind (reasons-Ensures rest) λ rs hs. Ensures-ok (r ∷ rs) (h, hs)

  read_rejection_reasons-HasCounts : (v : Value) → Ensures HasCounts (read_rejection_reasons lib v)
  unfolding read_rejection_reasons
  read_rejection_reasons-HasCounts null = Ensures-ok none tt
  read_rejection_reasons-HasCounts (array items) =
      Ensures-bind (reasons-Ensures items) λ rs h. Ensures-ok (some rs) h
  read_rejection_reasons-HasCounts _ = raised-Ensures _

  -- The reasons of a payload that parses are absent, or count at least 0 shares each.
  pub optional_share_rejection_reasons-HasCounts :
      (info : Dict Value) → Ensures HasCounts (optional_share_rejection_reasons lib info)
  unfolding optional_share_rejection_reasons
  optional_share_rejection_reasons-HasCounts info =
      read_rejection_reasons-HasCounts (get (codes "sharesRejectedReasons") info)
