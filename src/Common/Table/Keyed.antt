-- ===== src/Common/Table/Keyed.antt =====
-- Tables whose entries have a number for a key.
use rmw_cyclonedds_c.Common.Tests.{ltb, ◌==◌, if◌then◌else◌, Bool-cases, ltb→lt}
use Prim.Native.Nat.{ℕ}
use mathlib.Core.Path.{◌≡◌, ◌∙◌, ap, sym}
use mathlib.Core.Logic.{inl, inr}
use rmw_cyclonedds_c.Common.Lists.{erase_at}
use rmw_cyclonedds_c.Common.Keys.{Distinct, without, erase_at-index_of, without_absent}
use rmw_cyclonedds_c.Common.Table.{Table, contents, Fits, search, remove_at}
use rmw_cyclonedds_c.Common.Table.Contents.{
  contents-remove_at, search_lem, ltb-search-count, remove_at-Fits,
}

module _ {ℓ} {A : Type ℓ} (key : A → ℕ) (z : A) (cap k : ℕ) (t : Table A) (f : Fits cap t) where
  -- To search for a key and close the gap of the entry found is to remove all that have the key.
  pub contents-remove_key :
      Distinct key (contents t)
      → contents
          (let i = search z (λ x. key x == k) t in if ltb i t.count then remove_at z i t else t)
        ≡ without key k (contents t)
  contents-remove_key d = elim (Bool-cases (ltb (search z (λ x. key x == k) t) t.count)) [
    | inl e ↦ rw e (
        contents-remove_at z cap (search z (λ x. key x == k) t) t f (ltb→lt _ _ e)
        ∙ ap (λ i. erase_at i (contents t)) (search_lem z cap (λ x. key x == k) t f)
        ∙ erase_at-index_of key k (contents t) d)
    | inr e ↦ rw e (
        sym (
          without_absent key k (contents t)
            (sym (ltb-search-count z cap (λ x. key x == k) t f) ∙ e)))
  ]

  pub remove_key-Fits :
      Fits cap
        (let i = search z (λ x. key x == k) t in if ltb i t.count then remove_at z i t else t)
  remove_key-Fits = elim (Bool-cases (ltb (search z (λ x. key x == k) t) t.count)) [
    | inl e ↦ rw e (remove_at-Fits z cap (search z (λ x. key x == k) t) t f)
    | inr e ↦ rw e f
  ]
