-- ===== src/Store/Groups.antt =====
-- internal/repository/routing: the groups that SaveMihomoConfig stores, as ProxyGroups reads them.
use subgen.Prelude.Int.{ℤ, pos, int_eq}
use subgen.Prelude.Lists.{All, All-mono, All-append, length, get_elem?, append_nil}
use subgen.Prelude.{
  ℕ, suc, ◌+◌, ◌≤◌, ◌<◌, inl, inr, Bool, true, false, List, [], ◌∷◌, ◌++◌, map, Option, none, some,
  ok, ◌≡◌, refl, sym, ap, ◌∙◌, subst, arith, nat_eqb, Bool-cases, ◌==◌, nat_eqb_iff, >>=-eq-ok,
}
use subgen.Mihomo.ProxyGroup.{ProxyGroup}
use subgen.Mihomo.Draft.{GroupDraft}
use subgen.Store.Tables.{MemberRow, select, order_by}
use subgen.Store.Save.{group_rows, member_rows, all_member_rows, id_or_zero, bool_int_ptr}
use subgen.Store.Load.{ref_of_row, by_group, attach, attach_all, group_of_row, lazy_ptr}
use subgen.Store.Order.{select-append, select_no, select-All, order_by-Sorted}
use subgen.Store.Refs.{resolved}
use subgen.Store.Members.{
  ids_from, Increasing, get_elem?-ids_from, AreMembers, member_rows-AreMembers,
}

-- The rows of the members of a group.
abbrev pub of_group : ℤ → MemberRow → Bool
of_group id m = pos m.group_id == id

abbrev pub with_members : List MemberRow → ProxyGroup → ProxyGroup
with_members ms g = record g { members = g.members ++ map ref_of_row (select (of_group g.id) ms) }

append_assoc : {A : Type 0} (xs ys zs : List A) → (xs ++ ys) ++ zs ≡ xs ++ (ys ++ zs)
append_assoc [] ys zs = refl
append_assoc (x ∷ xs) ys zs = ap (λ l. x ∷ l) (append_assoc xs ys zs)

with_members-attach :
    (m : MemberRow) (ms : List MemberRow) (g : ProxyGroup)
    → with_members ms (attach m g) ≡ with_members (m ∷ ms) g
unfolding select
with_members-attach m ms g = elim (Bool-cases (pos m.group_id == g.id)) [
  | inl own ↦ rw own (
      ap (λ l. record g { members = l })
        (append_assoc g.members (ref_of_row m ∷ []) (map ref_of_row (select (of_group g.id) ms))))
  | inr other ↦ rw other refl
]

map_cong :
    {A B C : Type 0} (f : A → B) (g : B → C) (h : A → C) (xs : List A)
    → ((x : A) → g (f x) ≡ h x)
    → map g (map f xs) ≡ map h xs
map_cong f g h [] e = refl
map_cong f g h (x ∷ xs) e = rw (e x, map_cong f g h xs e) refl

no_members : (gs : List ProxyGroup) → gs ≡ map (with_members []) gs
unfolding select
no_members [] = refl
no_members (g ∷ gs) =
    let e : g ≡ with_members [] g =
      ap (λ l. record g { members = l }) (sym (append_nil g.members)) in
    ap (λ h. h ∷ gs) e ∙ ap (λ hs. with_members [] g ∷ hs) (no_members gs)

-- The loop over the member rows gives each group its own rows, in their order.
pub attach_all-map :
    (ms : List MemberRow) (gs : List ProxyGroup) → attach_all ms gs ≡ map (with_members ms) gs
unfolding attach_all
attach_all-map [] gs = no_members gs
attach_all-map (m ∷ ms) gs =
    attach_all-map ms (map (attach m) gs)
    ∙ map_cong (attach m) (with_members ms) (with_members (m ∷ ms)) gs (with_members-attach m ms)

-- The stored form of the groups from the i-th on.
unfoldable pub stored_groups : List ℕ → (ℕ → ℕ) → ℕ → List GroupDraft → List ProxyGroup
unfolding resolved
stored_groups ids new_id i [] = []
stored_groups ids new_id i (g ∷ gs) =
    record {
      id = pos (new_id i);
      position = pos i;
      name = g.name;
      type = g.type;
      url = g.url;
      interval = g.interval;
      tolerance = g.tolerance;
      lazy = g.lazy;
      members = map (resolved ids) g.members;
    }
    ∷ stored_groups ids new_id (suc i) gs

lazy_back : (b : Option Bool) → lazy_ptr (bool_int_ptr b) ≡ b
lazy_back none = refl
lazy_back (some true) = refl
lazy_back (some false) = refl

module _ (new_id : ℕ → ℕ) (up : Increasing new_id) where
  apart : (j k : ℕ) → j < k → nat_eqb (new_id j) (new_id k) ≡ false
  unfolding Increasing
  apart j k h = let l = up j k h in ground arith

  apart' : (j k : ℕ) → k < j → nat_eqb (new_id j) (new_id k) ≡ false
  unfolding Increasing
  apart' j k h = let l = up k j h in ground arith

  -- A row of a member of some group from the i-th on.
  abbrev pub Later : ℕ → MemberRow → Type 0
  Later i r = (k : ℕ) × (r.group_id ≡ new_id k) × (i ≤ k)

  id_at_index : (i n : ℕ) → i < n → id_or_zero (get_elem? (ids_from new_id 0 n) i) ≡ new_id i
  id_at_index i n h = ap id_or_zero (get_elem?-ids_from new_id 0 n i h) ∙ ap new_id (omega arith)

  -- The rows of one group, and those of the groups after it.
  abbrev Parts : ℕ → ℕ → GroupDraft → List GroupDraft → List MemberRow → Type 0
  Parts n i g gs rows =
      (own : List MemberRow) × (rest : List MemberRow) × AreMembers (ids_from new_id 0 n) (new_id i)
        0 g.members own
      × (all_member_rows (ids_from new_id 0 n) (suc i) gs ≡ ok rest)
      × (own ++ rest ≡ rows)

  parts :
      (n i : ℕ) (g : GroupDraft) (gs : List GroupDraft) (rows : List MemberRow)
      → i < n
      → all_member_rows (ids_from new_id 0 n) i (g ∷ gs) ≡ ok rows
      → Parts n i g gs rows
  unfolding all_member_rows
  parts n i g gs rows in_range h =
      let ids = ids_from new_id 0 n in
      let own = >>=-eq-ok (member_rows ids (id_or_zero (get_elem? ids i)) 0 g.members) _ rows h in
      let rest = >>=-eq-ok (all_member_rows ids (suc i) gs) _ rows own.2 in
      let made : member_rows ids (new_id i) 0 g.members ≡ ok own.0 =
        rw (sym (id_at_index i n in_range)) (own.1) in
      let e : own.0 ++ rest.0 ≡ rows = cc (rest.2) in
      (own.0, rest.0, member_rows-AreMembers ids (new_id i) 0 g.members own.0 made, rest.1, e)

  pub All-Later :
      (n i : ℕ) (gs : List GroupDraft) (rows : List MemberRow)
      → i + length gs ≡ n
      → all_member_rows (ids_from new_id 0 n) i gs ≡ ok rows
      → All (Later i) rows
  unfolding all_member_rows
  All-Later n i [] rows size h = let e : [] ≡ rows = cc in subst (All (Later i)) e tt
  All-Later n i (g ∷ gs) rows size h =
      let p = parts n i g gs rows (omega arith) h in
      subst (All (Later i)) p.4 (
        All-append (Later i) p.0 p.1 (All-mono p.0 (λ r h. (i, h.0, omega arith)) p.2.0) (
          All-mono p.1 (λ r h. (h.0, h.1, omega arith))
            (All-Later n (suc i) gs p.1 (omega arith) p.3)))

  own_rows :
      (i : ℕ) (own rest : List MemberRow)
      → All (λ r. (r.group_id ≡ new_id i) × (0 ≤ r.position)) own
      → All (Later (suc i)) rest
      → select (of_group (pos (new_id i))) (own ++ rest) ≡ own
  own_rows i own rest here later =
      select-append (of_group (pos (new_id i))) own rest
      ∙ rw
          (select-All (of_group (pos (new_id i))) own
            (All-mono own (λ r h. (nat_eqb_iff r.group_id (new_id i)).1 h.0) here))
          rw
          (select_no (of_group (pos (new_id i))) rest
            (All-mono rest (λ r h. rw (h.1) (apart' h.0 i (omega arith))) later))
          (append_nil own)

  other_rows :
      (i k : ℕ) (own rest : List MemberRow)
      → i < k
      → All (λ r. (r.group_id ≡ new_id i) × (0 ≤ r.position)) own
      → select (of_group (pos (new_id k))) (own ++ rest) ≡ select (of_group (pos (new_id k))) rest
  other_rows i k own rest l here =
      select-append (of_group (pos (new_id k))) own rest
      ∙ rw
          (select_no (of_group (pos (new_id k))) own
            (All-mono own (λ r h. rw (h.0) (apart i k l)) here))
          refl

  pub groups_lem :
      (c : ℤ) (table : List MemberRow) (n i : ℕ) (gs : List GroupDraft) (rows : List MemberRow)
      → i + length gs ≡ n
      → all_member_rows (ids_from new_id 0 n) i gs ≡ ok rows
      → ((k : ℕ)
          → i ≤ k
          → select (of_group (pos (new_id k))) table
            ≡ order_by by_group (select (of_group (pos (new_id k))) rows))
      → map (with_members table) (map group_of_row (group_rows c new_id i gs))
        ≡ stored_groups (ids_from new_id 0 n) new_id i gs
  unfolding stored_groups group_rows
  groups_lem c table n i [] rows size h whole = refl
  groups_lem c table n i (g ∷ gs) rows size h whole =
      let p = parts n i g gs rows (omega arith) h in
      let rest = groups_lem c table n (suc i) gs p.1 (omega arith) p.3 (λ k l.
        whole k (omega arith)
        ∙ rw (sym p.4) (ap (order_by by_group) (other_rows i k p.0 p.1 l p.2.0))) in
      let later = All-Later n (suc i) gs p.1 (omega arith) p.3 in
      let own : select (of_group (pos (new_id i))) table ≡ p.0 =
        whole i (omega arith)
        ∙ rw (sym p.4, own_rows i p.0 p.1 p.2.0 later) (order_by-Sorted by_group p.0 p.2.1) in
      rw (own, p.2.2, lazy_back g.lazy, rest) refl
