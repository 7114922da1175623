-- ===== src/Kb/Usage.antt =====
-- The usage that is billed, against the rows of the banks.
use image2prompt.Base.{
  ◌+◌, ◌≤◌, ◌≡◌, refl, String, Bool, false, List, [], ◌∷◌, keep_if, count_if, sum_by, length, ◌==◌,
  eq_iff, arith,
}
use image2prompt.Kb.{ProjectKb, KbDb}
use image2prompt.Kb.Daos.{StackUsage, add_usage, group_usage, usage_by_customer, count_kbs}

add_usage-totals :
    (k : ProjectKb) (us : List StackUsage)
    → (sum_by (λ u. u.kb_count) (add_usage k us) ≡ sum_by (λ u. u.kb_count) us + 1)
      × (sum_by (λ u. u.doc_count) (add_usage k us) ≡ sum_by (λ u. u.doc_count) us + k.doc_count)
add_usage-totals k [] = ground arith
add_usage-totals k (u ∷ us) = ground (arith, add_usage-totals k us)

-- A bank of another stack adds no row of this one.
count_if-add_usage :
    (t : String) (k : ProjectKb) (us : List StackUsage)
    → (k.tech_stack == t) ≡ false
    → count_if (λ u. u.stack == t) (add_usage k us) ≡ count_if (λ u. u.stack == t) us
count_if-add_usage t k [] h = ground arith
count_if-add_usage t k (u ∷ us) h = ground (arith, count_if-add_usage t k us h)

count_if-add_usage-le :
    (t : String) (k : ProjectKb) (us : List StackUsage)
    → count_if (λ u. u.stack == t) us ≤ 1
    → count_if (λ u. u.stack == t) (add_usage k us) ≤ 1
count_if-add_usage-le t k [] h = ground arith
count_if-add_usage-le t k (u ∷ us) h = ground (
  arith,
  count_if-add_usage-le t k us,
  count_if-add_usage t k us,
  eq_iff u.stack k.tech_stack,
  eq_iff u.stack t,
  eq_iff k.tech_stack t,
)

group_usage-totals :
    (ks : List ProjectKb)
    → (sum_by (λ u. u.kb_count) (group_usage ks) ≡ length ks)
      × (sum_by (λ u. u.doc_count) (group_usage ks) ≡ sum_by (λ k. k.doc_count) ks)
group_usage-totals [] = (refl, refl)
group_usage-totals (k ∷ ks) =
    ground (arith, group_usage-totals ks, add_usage-totals k (group_usage ks))

group_usage-le :
    (t : String) (ks : List ProjectKb) → count_if (λ u. u.stack == t) (group_usage ks) ≤ 1
group_usage-le t [] = omega arith
group_usage-le t (k ∷ ks) = count_if-add_usage-le t k (group_usage ks) (group_usage-le t ks)

length-keep_if : {A : Type 0} (p : A → Bool) (xs : List A) → length (keep_if p xs) ≡ count_if p xs
length-keep_if p [] = refl
length-keep_if p (x ∷ xs) = ground (arith, length-keep_if p xs)

-- The usage of a customer has at most one row for a stack; its bank counts add up to the number of
-- the customer's banks, the one that the plan's limit is held against, and its document counts to
-- the documents that those banks count.
pub usage_by_customer-totals :
    {V : Type 0} (customer_id : String) (d : KbDb V)
    → (sum_by (λ u. u.kb_count) (usage_by_customer customer_id d) ≡ count_kbs customer_id d)
      × (sum_by (λ u. u.doc_count) (usage_by_customer customer_id d)
          ≡ sum_by (λ k. k.doc_count) (keep_if (λ k. k.customer_id == customer_id) d.kbs))
      × ((t : String) → count_if (λ u. u.stack == t) (usage_by_customer customer_id d) ≤ 1)
unfolding usage_by_customer count_kbs
usage_by_customer-totals customer_id d =
    let own = keep_if (λ (k : ProjectKb). k.customer_id == customer_id) d.kbs in
    (
      ground (
        arith,
        group_usage-totals own,
        length-keep_if (λ (k : ProjectKb). k.customer_id == customer_id) d.kbs,
      ),
      (group_usage-totals own).1,
      λ t. group_usage-le t own,
    )
