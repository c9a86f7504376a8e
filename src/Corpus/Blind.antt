-- ===== src/Corpus/Blind.antt =====
-- What an artifact holds, and where its ground truth is: phylax/harness/corpus.py.
use phylax_subnet.Prelude.{
  ℕ, ◌≡◌, refl, sym, subst, false, String, Option, none, some, List, [], ◌∷◌, ◌++◌, ◌==◌, All,
  All-append, All-put, Dict, get, Bool-cases, inl, inr, eq_iff,
}
use phylax_subnet.Prelude.Text.{Text, codes, ends_with}
use phylax_subnet.Number.{Float}
use phylax_subnet.Value.{Value, Fields, Conversions}
use phylax_subnet.Sandbox.Clean.{IsInside}
use phylax_subnet.Corpus.{bucket_of, category_of, bucket_items, add_item, fill_buckets}

-- The names of the files that hold a label, a ground truth or what was observed.
abbrev pub answer_names : List String
answer_names = "label.json" ∷ "ground_truth.json" ∷ "_label.example.json" ∷ "observed.json" ∷ []

-- The path of the entry is inside the root, and does not end in one of the names.
abbrev pub IsHarmless : Text × List ℕ → Type 0
IsHarmless e =
    IsInside e.0 × All (λ (f : String). ends_with (47 ∷ e.0) (47 ∷ codes f) ≡ false) answer_names

module _ {F : Type 0} ⦃num : Float F⦄ (conv : Conversions F) where
  -- Every finding of a bucket is of a category of the bucket.
  abbrev pub IsBucket : String × List (Fields F) → Type 0
  IsBucket b = All (λ (item : Fields F). bucket_of (category_of conv item) ≡ some b.0) b.1

  bucket_items-IsBucket :
      (buckets : Dict (List (Fields F))) (k : String)
      → All IsBucket buckets
      → IsBucket (k, bucket_items conv buckets k)
  unfolding get
  bucket_items-IsBucket [] k h = tt
  bucket_items-IsBucket ((j, items) ∷ buckets) k (b, h) = elim (Bool-cases (j == k)) [
    | inl e ↦
        let same : j ≡ k = (eq_iff j k).0 e in
        rw (bucket_items, get, e) (subst (λ i. IsBucket (i, items)) same b)
    | inr e ↦ rw (bucket_items, get, e) (bucket_items-IsBucket buckets k h)
  ]

  -- The ground truth that is made of a list of findings has each in the bucket of its category.
  pub fill_buckets-IsBucket :
      (items : List (Fields F)) (buckets : Dict (List (Fields F)))
      → All IsBucket buckets
      → All IsBucket (fill_buckets conv items buckets)
  unfolding fill_buckets
  fill_buckets-IsBucket [] buckets h = h
  fill_buckets-IsBucket (item ∷ items) buckets h =
      fill_buckets-IsBucket items _ (added (bucket_of (category_of conv item)) refl)
    where
      added :
          (b : Option String)
          → bucket_of (category_of conv item) ≡ b
          → All IsBucket (add_item conv buckets b item)
      added none e = h
      added (some k) e =
          let grown =
            All-append _ (bucket_items conv buckets k) (item ∷ [])
              (bucket_items-IsBucket buckets k h) (e, tt) in
          All-put IsBucket buckets k _ h
            (λ j f.
              let same : k ≡ j = sym ((eq_iff j k).0 f) in
              subst (λ i. IsBucket (i, bucket_items conv buckets k ++ (item ∷ []))) same grown)
            grown
