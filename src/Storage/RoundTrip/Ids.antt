-- ===== src/Storage/RoundTrip/Ids.antt =====
-- About the rejected ids in the document, and membership of sets.
use bitaxe_fleet.Prelude.{
  ◌≡◌, refl, Bool, true, false, ◌||◌, List, [], ◌∷◌, ◌++◌, arith, if◌then◌else◌, All, ap, ◌∙◌,
  Bool-cases, inl, inr,
}
use bitaxe_fleet.Python.Text.{Text, text_eq, text_eq_iff}
use bitaxe_fleet.Python.Value.{Value, list_of, str}
use bitaxe_fleet.Axeos.Errors.{Result}
use bitaxe_fleet.Axeos.Models.{MinerId}
use bitaxe_fleet.Axeos.Parser.MinerId.Canonical.{IsMac, normalize_miner_id_keeps}
use bitaxe_fleet.Storage.State.{IdSet, contains_id, add_id, discard_id}
use bitaxe_fleet.Storage.Serialize.{text_lt, insert_sorted, sorted, serialize_ids}
use bitaxe_fleet.Storage.Load.{load_rejections, add_valid}

pub contains_id-append :
    (x : MinerId) (s t : IdSet) → contains_id x (s ++ t) ≡ (contains_id x s || contains_id x t)
unfolding contains_id
contains_id-append x [] t = refl
contains_id-append x (y ∷ s) t = ground (arith, contains_id-append x s t)

pub contains_id-add_id :
    (x m : MinerId) (s : IdSet) → contains_id x (add_id m s) ≡ (text_eq x m || contains_id x s)
unfolding add_id
contains_id-add_id x m s = elim (Bool-cases (contains_id m s)) [
  | inl old ↦ rw old (ground (arith, text_eq_iff x m))
  | inr new ↦ rw new (rw (contains_id-append x s (m ∷ [])) (unfold contains_id in ground arith))
]

pub contains_id-discard_id :
    (x m : MinerId) (s : IdSet)
    → contains_id x (discard_id m s) ≡ (if text_eq x m then false else contains_id x s)
unfolding contains_id discard_id
contains_id-discard_id x m [] = ground arith
contains_id-discard_id x m (y ∷ s) =
    ground (arith, contains_id-discard_id x m s, text_eq_iff m y, text_eq_iff x y, text_eq_iff x m)

contains_id-insert_sorted :
    (x m : MinerId) (s : IdSet)
    → contains_id x (insert_sorted m s) ≡ (text_eq x m || contains_id x s)
unfolding contains_id insert_sorted
contains_id-insert_sorted x m [] = refl
contains_id-insert_sorted x m (y ∷ s) = ground (arith, contains_id-insert_sorted x m s)

pub contains_id-sorted : (x : MinerId) (s : IdSet) → contains_id x (sorted s) ≡ contains_id x s
unfolding sorted contains_id
contains_id-sorted x [] = refl
contains_id-sorted x (m ∷ s) =
    ground (arith, contains_id-insert_sorted x m (sorted s), contains_id-sorted x s)

insert_sorted-All :
    (P : MinerId → Type 0) (m : MinerId) (s : IdSet) → P m → All P s → All P (insert_sorted m s)
unfolding insert_sorted
insert_sorted-All P m [] p h = (p, tt)
insert_sorted-All P m (y ∷ s) p h = step (text_lt y m) (insert_sorted-All P m s p h.1)
  where
    step :
        (b : Bool)
        → All P (insert_sorted m s)
        → All P (if b then y ∷ insert_sorted m s else m ∷ y ∷ s)
    step true ih = (h.0, ih)
    step false ih = (p, h)

sorted-All : (P : MinerId → Type 0) (s : IdSet) → All P s → All P (sorted s)
unfolding sorted
sorted-All P [] h = tt
sorted-All P (m ∷ s) h = insert_sorted-All P m (sorted s) h.0 (sorted-All P s h.1)

load_step :
    (m : MinerId) (vs : List Value) (acc : IdSet)
    → IsMac m
    → load_rejections (str m ∷ vs) acc ≡ load_rejections vs (add_id m acc)
unfolding load_rejections
load_step m vs acc h =
    ap (λ (r : Result Text). load_rejections vs (add_valid r acc)) (normalize_miner_id_keeps m h)

load_rejections_keeps :
    (x : MinerId) (s acc : IdSet)
    → All IsMac s
    → contains_id x (load_rejections (list_of (serialize_ids s)) acc)
      ≡ (contains_id x acc || contains_id x s)
unfolding load_rejections list_of serialize_ids contains_id
load_rejections_keeps x [] acc h = ground arith
load_rejections_keeps x (m ∷ s) acc h =
    ap (contains_id x) (load_step m (list_of (serialize_ids s)) acc h.0)
    ∙ load_rejections_keeps x s (add_id m acc) h.1
    ∙ ground (arith, contains_id-add_id x m acc)

-- The sorted list of a set of ids reads back as that set.
pub rejections_keep :
    (x : MinerId) (s : IdSet)
    → All IsMac s
    → contains_id x (load_rejections (list_of (serialize_ids (sorted s))) []) ≡ contains_id x s
rejections_keep x s h =
    load_rejections_keeps x (sorted s) [] (sorted-All IsMac s h)
    ∙ (unfold contains_id in contains_id-sorted x s)
