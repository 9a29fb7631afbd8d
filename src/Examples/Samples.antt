-- ===== src/Examples/Samples.antt =====
-- Concrete numbers, times and events. Numbers are integers in units of 1e-9, times are natural
-- numbers.
use super_brain.Prelude.{ℕ, ◌≡◌, refl, true, false, none, List, Ordering, arith}
use Prim.Native.Nat.{compare}
use super_brain.Prelude.Int.{
  ℤ, pos, negsuc, plus, minus, below, same, below_irrefl, below_asymm, minus_self,
}
use super_brain.Prelude.Order.{Ordered, flip}
use super_brain.Prelude.Text.{Text, text}
use super_brain.Fold.Json.{Numbers}
use super_brain.Fold.Schema.{Assertion, Target, Change, FoldEvent, human}
use super_brain.Fold.Schema.Validity.{Dates}
use super_brain.Fold.Order.{FoldLogEntry, canon}

instance abbrev pub sample_numbers : Numbers ℤ
sample_numbers = record {
  minus_one = negsuc 999_999_999;
  zero = pos 0;
  one = pos 1_000_000_000;
  tolerance = pos 1;
  add = plus;
  sub = minus;
  lt = below;
  eq = same;
  is_nan = λ _. false;
  finite = λ _. true;
  lt_irrefl = below_irrefl;
  lt_asymm = below_asymm;
  sub_self = λ a _. minus_self a;
  tolerance_pos = refl;
}

instance abbrev pub sample_dates : Dates ℤ
sample_dates = record { is_datetime = λ _. true; parse_date = λ _. pos 0; of_ms = pos }

pub compare_self : (a : ℕ) → compare a a ≡ Ordering.eq
compare_self a = ground arith

pub eq_of_compare : (a b : ℕ) → compare a b ≡ Ordering.eq → a ≡ b
eq_of_compare a b h = ground arith

pub compare-flip : (a b : ℕ) → compare b a ≡ flip (compare a b)
compare-flip a b = ground arith

pub compare_trans :
    (a b c : ℕ) → compare a b ≡ Ordering.lt → compare b c ≡ Ordering.lt → compare a c ≡ Ordering.lt
compare_trans a b c h k = ground arith

instance abbrev pub sample_clock : Ordered ℕ
sample_clock = record {
  cmp = compare;
  cmp_self = compare_self;
  eq_of_cmp = eq_of_compare;
  cmp_flip = compare-flip;
  cmp_trans = compare_trans;
}

abbrev pub change : Assertion ℤ → Change ℤ
change a = record { assertion = a; provenance = none }

abbrev pub event : Text → ℕ → List (Change ℤ) → FoldEvent ℤ ℕ
event id t changes = record {
  id = id;
  kind = text "scene";
  title = text "a scene";
  description = none;
  t = t;
  world_date = text "2026-09-04";
  granularity = none;
  timeline_id = none;
  participants = none;
  location = none;
  author = record { kind = human; id = text "ann"; production_id = none };
  caused_by = none;
  magnitude = none;
  valence = none;
  capture = record { workspace = text "w"; space = none; creator = none; identity = none };
  lifecycle = none;
  changes = changes;
  effects = none;
  extensions = none;
}

abbrev pub entry : Text → ℕ → List (Change ℤ) → FoldLogEntry ℤ ℕ
entry id t changes = record { event = event id t changes; status = canon }

abbrev pub target : Text → Text → Target
target subject component = record {
  subject = subject;
  component = component;
  field = none;
  object = none;
}
