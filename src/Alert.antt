-- ===== src/Alert.antt =====
-- alert.cpp and alert.h: the alerts in effect, and what ProcessAlert and RelayTo do with one.
-- A string is the list of its bytes. The adjusted time, the signature check of key.h, the hash, the
-- stream format, the replacement of "%s" in the command and this node's versions are the fields of
-- `Env`; sending a message and running the command are outputs.
pub mod Process
pub mod Settled
pub mod Safe
use tri_tip.Prelude.{◌>>=◌}
use mathlib.Core.Bool.{◌&&◌, ◌||◌, Bool, false, not, true}
use tri_tip.Prelude.{[], ◌∷◌, List, Option, if◌then◌else◌, leb, ltb, none, some, ℕ, ◌==◌, ◌++◌}
use tri_tip.Prelude.Int.{ℤ, pos, negsuc, ltb_ℤ}
use tri_tip.Prelude.Equality.{bytes_eq, eq_ℤ}
use tri_tip.Prelude.Maps.{find, has, insert}

pub record UnsignedAlert : Type 0 where
  pub version : ℤ
  pub relay_until : ℤ
  pub expiration : ℤ
  pub id : ℤ
  pub cancel : ℤ
  pub set_cancel : List ℤ
  pub min_ver : ℤ
  pub max_ver : ℤ
  pub set_sub_ver : List (List ℕ)
  pub priority : ℤ
  pub comment : List ℕ
  pub status_bar : List ℕ
  pub reserved : List ℕ

pub record Alert : Type 0 where
  pub fields : UnsignedAlert
  pub msg : List ℕ
  pub sig : List ℕ

-- `SetNull` of the two classes
unfoldable pub null_fields : UnsignedAlert
null_fields = record {
  version = pos 1;
  relay_until = pos 0;
  expiration = pos 0;
  id = pos 0;
  cancel = pos 0;
  set_cancel = [];
  min_ver = pos 0;
  max_ver = pos 0;
  set_sub_ver = [];
  priority = pos 0;
  comment = [];
  status_bar = [];
  reserved = [];
}

unfoldable pub null : Alert
unfolding null_fields
null = record { fields = null_fields; msg = []; sig = [] }

unfoldable pub is_null : Alert → Bool
is_null a = eq_ℤ a.fields.expiration (pos 0)

pub record Env : Type 0 where
  pub now : ℤ
  pub test_net : Bool
  pub hash : List ℕ → ℕ
  pub verify : (key : List ℕ) (hash : ℕ) (sig : List ℕ) → Bool
  pub main_key : List ℕ
  pub test_key : List ℕ
  pub decode : List ℕ → Option UnsignedAlert
  pub protocol_version : ℤ
  pub sub_version : List ℕ
  pub alert_notify : List ℕ
  pub replace_all : (command status : List ℕ) → List ℕ

-- Membership in a std::set, as a search in its elements.
unfoldable pub count : ℤ → List ℤ → Bool
count n [] = false
count n (m ∷ ms) = if eq_ℤ m n then true else count n ms

unfoldable pub count_string : List ℕ → List (List ℕ) → Bool
count_string s [] = false
count_string s (t ∷ ts) = if bytes_eq t s then true else count_string s ts

unfoldable pub is_empty_set : List (List ℕ) → Bool
is_empty_set [] = true
is_empty_set (s ∷ ss) = false

unfoldable pub leb_ℤ : ℤ → ℤ → Bool
leb_ℤ a b = not (ltb_ℤ b a)

unfoldable pub is_in_effect : ℤ → Alert → Bool
is_in_effect now a = ltb_ℤ now a.fields.expiration

unfoldable pub cancels : ℤ → Alert → Alert → Bool
unfolding is_in_effect leb_ℤ count
cancels now a b =
    if not (is_in_effect now a)
    then false
    else leb_ℤ b.fields.id a.fields.cancel || count b.fields.id a.fields.set_cancel

unfoldable pub applies_to : ℤ → ℤ → List ℕ → Alert → Bool
unfolding is_in_effect leb_ℤ is_empty_set count_string
applies_to now version sub_ver a =
    is_in_effect now a
    && leb_ℤ a.fields.min_ver version
    && leb_ℤ version a.fields.max_ver
    && (is_empty_set a.fields.set_sub_ver || count_string sub_ver a.fields.set_sub_ver)

unfoldable pub max_int : ℤ
max_int = pos 2147483647

-- "URGENT: Alert key compromised, upgrade required"
abbrev pub urgent : List ℕ
urgent =
    85 ∷ 82 ∷ 71 ∷ 69 ∷ 78 ∷ 84 ∷ 58 ∷ 32 ∷ 65 ∷ 108 ∷ 101 ∷ 114 ∷ 116 ∷ 32 ∷ 107 ∷ 101 ∷ 121 ∷ 32
    ∷ 99 ∷ 111 ∷ 109 ∷ 112 ∷ 114 ∷ 111 ∷ 109 ∷ 105 ∷ 115 ∷ 101 ∷ 100 ∷ 44 ∷ 32 ∷ 117 ∷ 112 ∷ 103
    ∷ 114 ∷ 97 ∷ 100 ∷ 101 ∷ 32 ∷ 114 ∷ 101 ∷ 113 ∷ 117 ∷ 105 ∷ 114 ∷ 101 ∷ 100 ∷ []

abbrev pub safe_chars : List ℕ
safe_chars =
    97 ∷ 98 ∷ 99 ∷ 100 ∷ 101 ∷ 102 ∷ 103 ∷ 104 ∷ 105 ∷ 106 ∷ 107 ∷ 108 ∷ 109 ∷ 110 ∷ 111 ∷ 112 ∷ 113
    ∷ 114 ∷ 115 ∷ 116 ∷ 117 ∷ 118 ∷ 119 ∷ 120 ∷ 121 ∷ 122 ∷ 65 ∷ 66 ∷ 67 ∷ 68 ∷ 69 ∷ 70 ∷ 71 ∷ 72
    ∷ 73 ∷ 74 ∷ 75 ∷ 76 ∷ 77 ∷ 78 ∷ 79 ∷ 80 ∷ 81 ∷ 82 ∷ 83 ∷ 84 ∷ 85 ∷ 86 ∷ 87 ∷ 88 ∷ 89 ∷ 90 ∷ 48
    ∷ 49 ∷ 50 ∷ 51 ∷ 52 ∷ 53 ∷ 54 ∷ 55 ∷ 56 ∷ 57 ∷ 48 ∷ 32 ∷ 46 ∷ 44 ∷ 59 ∷ 95 ∷ 47 ∷ 58 ∷ 63 ∷ 64
    ∷ []

-- The form that an alert with the largest id must have.
unfoldable pub is_final_form : Alert → Bool
unfolding max_int is_empty_set
is_final_form a =
    eq_ℤ a.fields.expiration max_int
    && eq_ℤ a.fields.cancel (pos 2147483646)
    && eq_ℤ a.fields.min_ver (pos 0)
    && eq_ℤ a.fields.max_ver max_int
    && is_empty_set a.fields.set_sub_ver
    && eq_ℤ a.fields.priority max_int
    && bytes_eq a.fields.status_bar urgent

unfoldable pub member : ℕ → List ℕ → Bool
member c [] = false
member c (s ∷ ss) = if s == c then true else member c ss

-- The status text without the characters that are not safe, and between quotes.
unfoldable pub safe_chars_of : List ℕ → List ℕ
unfolding member
safe_chars_of [] = []
safe_chars_of (c ∷ cs) = if member c safe_chars then c ∷ safe_chars_of cs else safe_chars_of cs

unfoldable pub safe_status : List ℕ → List ℕ
unfolding safe_chars_of
safe_status text = 39 ∷ safe_chars_of text ++ 39 ∷ []

pub data Notice : Type 0 where
  deleted : ℕ → Notice
  new_alert : ℕ → Notice

-- The loop over mapAlerts that cancels and expires: what stays, and the notices it sends.
unfoldable pub cancel_loop : ℤ → Alert → List (ℕ × Alert) → List (ℕ × Alert)
unfolding cancels is_in_effect
cancel_loop now a [] = []
cancel_loop now a ((h, b) ∷ m) =
    if cancels now a b
    then cancel_loop now a m
    else if not (is_in_effect now b)
    then cancel_loop now a m
    else (h, b) ∷ cancel_loop now a m

unfoldable pub cancel_notices : ℤ → Alert → List (ℕ × Alert) → List Notice
unfolding cancels is_in_effect
cancel_notices now a [] = []
cancel_notices now a ((h, b) ∷ m) =
    if cancels now a b
    then deleted h ∷ cancel_notices now a m
    else if not (is_in_effect now b)
    then deleted h ∷ cancel_notices now a m
    else cancel_notices now a m

unfoldable pub is_cancelled : ℤ → Alert → List (ℕ × Alert) → Bool
unfolding cancels
is_cancelled now a [] = false
is_cancelled now a ((h, b) ∷ m) = if cancels now b a then true else is_cancelled now a m

-- What ProcessAlert leaves: its result, this alert, mapAlerts, the notices and the command it runs.
pub record Outcome : Type 0 where
  pub accepted : Bool
  pub alert : Alert
  pub alerts : List (ℕ × Alert)
  pub notices : List Notice
  pub command : Option (List ℕ)

unfoldable pub is_nonempty : List ℕ → Bool
is_nonempty [] = false
is_nonempty (c ∷ cs) = true

module _ (env : Env) where
  unfoldable pub applies_to_me : Alert → Bool
  unfolding applies_to
  applies_to_me = applies_to env.now env.protocol_version env.sub_version

  -- `false` where the signature fails, and nothing is read; `none` where the stream ends early.
  unfoldable pub check_signature : Alert → Option (Bool × Alert)
  check_signature a =
      if env.verify (if env.test_net then env.test_key else env.main_key) (env.hash a.msg) a.sig
      then (do fields ← env.decode a.msg; some (true, record a { fields = fields }))
      else some (false, a)

  unfoldable pub get_alert_by_hash : ℕ → List (ℕ × Alert) → Alert
  unfolding null
  get_alert_by_hash h m = elim (find h m) [ none ↦ null | some a ↦ a ]

  unfoldable pub refuse : Alert → List (ℕ × Alert) → List Notice → Outcome
  refuse a m ns = record { accepted = false; alert = a; alerts = m; notices = ns; command = none }

  -- The last part of ProcessAlert: the alert is added to what the loop left in the map.
  unfoldable pub add_alert : Alert → List (ℕ × Alert) → List Notice → Outcome
  unfolding applies_to_me is_nonempty safe_status
  add_alert a m ns = record {
    accepted = true;
    alert = a;
    alerts = insert (env.hash a.msg) a m;
    notices = if applies_to_me a then ns ++ new_alert (env.hash a.msg) ∷ [] else ns;
    command =
        if applies_to_me a
        then (if is_nonempty env.alert_notify
            then some (env.replace_all env.alert_notify (safe_status a.fields.status_bar))
            else none)
        else none;
  }

  -- ProcessAlert after the signature check.
  unfoldable pub process_checked : Alert → List (ℕ × Alert) → Outcome
  unfolding refuse add_alert is_in_effect is_final_form cancel_loop cancel_notices is_cancelled
      max_int
  process_checked a m =
      if not (is_in_effect env.now a)
      then refuse a m []
      else if (eq_ℤ a.fields.id max_int && not (is_final_form a))
      then refuse a m []
      else if is_cancelled env.now a (cancel_loop env.now a m)
      then refuse a (cancel_loop env.now a m) (cancel_notices env.now a m)
      else add_alert a (cancel_loop env.now a m) (cancel_notices env.now a m)

  unfoldable pub process_alert : Alert → List (ℕ × Alert) → Option Outcome
  unfolding refuse check_signature process_checked
  process_alert a m = do
    (valid, b) ← check_signature a
    some (if valid then process_checked b m else refuse b m [])

  -- A peer: the hashes in setKnown, its versions, and the alerts pushed to it.
  unfoldable pub relay_to : ℤ → List ℕ → Alert → List ℕ → Bool × List ℕ
  unfolding applies_to applies_to_me is_in_effect member
  relay_to version sub_ver a known =
      if not (is_in_effect env.now a)
      then (false, known)
      else if member (env.hash a.msg) known
      then (false, known)
      else (
        applies_to env.now version sub_ver a
            || applies_to_me a
            || ltb_ℤ env.now a.fields.relay_until,
        env.hash a.msg ∷ known,
      )
