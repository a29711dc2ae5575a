-- ===== src/FilePaths/Links/Counts.antt =====
-- The counts of the manager are the numbers of links.
use vegar.Prelude.{
  ℕ, ◌+◌, ◌-◌, ◌∙◌, ◌≤◌, ◌<◌, ◌≡◌, refl, ap, inl, inr, Option, none, some, List, [], ◌∷◌, arith,
  ◌==◌, if◌then◌else◌, Bool-cases, Option-cases, length, text_beq, text_beq_iff, text_eq, lookup,
  insert, remove, Unique, insert-Unique, remove-Unique, lookup-insert, lookup-remove, count_value,
  count_value-insert, count_value-remove, usize_mod,
}
use vegar.FilePaths.Text.{Text}
use vegar.FilePaths.Links.{
  FileSystem, LinkManagerInner, new_manager, decrease_ref_count, add_link, atomic_link_update,
  atomic_link_remove, create_link, remove_link,
}

-- The entry that a target with `n` links has.
abbrev pub entry : ℕ → Option ℕ
entry n = if n == 0 then none else some n

pub record IsCounted (m : LinkManagerInner) : Type 0 where
  pub unique : Unique m.links
  pub small : length m.links < usize_mod
  pub counts : (t : Text) → lookup t m.ref_counts ≡ entry (count_value t m.links)

-- The counts are those that `f` gives.
abbrev CountsAre : LinkManagerInner → (Text → ℕ) → Type 0
CountsAre m f = (t : Text) → lookup t m.ref_counts ≡ entry (f t)

abbrev one_at : Text → Text → ℕ
one_at path t = if text_beq path t then 1 else 0

pub new_manager-IsCounted : IsCounted new_manager
unfolding new_manager lookup count_value
new_manager-IsCounted = record { unique = tt; small = omega arith; counts = λ t. refl }

pub count_value-le-length : (v : Text) (m : List (Text × Text)) → count_value v m ≤ length m
unfolding count_value
count_value-le-length v [] = omega arith
count_value-le-length v ((k, w) ∷ m) = ground (arith, count_value-le-length v m)

-- The target of a link has a link.
pub linked-held :
    (m : LinkManagerInner) (src dst : Text)
    → IsCounted m
    → lookup src m.links ≡ some dst
    → 0 < count_value dst m.links
linked-held m src dst v e =
    ground (arith, e, (text_beq_iff dst dst).1 refl, count_value-remove dst src m.links v.unique)

length-remove-le : (k : Text) (m : List (Text × Text)) → length (remove k m) ≤ length m
unfolding remove
length-remove-le k [] = omega arith
length-remove-le k ((j, v) ∷ m) = ground (arith, length-remove-le k m)

length-insert-le : (k v : Text) (m : List (Text × Text)) → length (insert k v m) ≤ length m + 1
unfolding insert
length-insert-le k v [] = omega arith
length-insert-le k v ((j, w) ∷ m) = ground (arith, length-insert-le k v m)

module _ (F : FileSystem) where
  open F use {Fs, exists, remove_file}

  pub links-decrease :
      (m : LinkManagerInner) (fs : Fs) (path : Text)
      → (decrease_ref_count F (m, fs) path).1.0.links ≡ m.links
  unfolding decrease_ref_count
  links-decrease m fs path = ground arith

  counts-decrease :
      (m : LinkManagerInner) (fs : Fs) (path : Text) (f : Text → ℕ)
      → CountsAre m f
      → 0 < f path
      → f path < usize_mod
      → CountsAre (decrease_ref_count F (m, fs) path).1.0 (λ t. f t - one_at path t)
  unfolding decrease_ref_count
  counts-decrease m fs path f c pos small t = ground (
    arith,
    c path,
    c t,
    ap f,
    lookup-remove path t m.ref_counts,
    lookup-insert path t (f path - 1) m.ref_counts,
    text_beq_iff path t,
  )

  counts-add_link :
      (m : LinkManagerInner) (fs : Fs) (src dst : Text) (f : Text → ℕ)
      → CountsAre m f
      → f dst + 1 < usize_mod
      → CountsAre (add_link F (m, fs) src dst).0 (λ t. f t + one_at dst t)
  unfolding add_link
  counts-add_link m fs src dst f c small t =
      ground (arith, c dst, c t, lookup-insert dst t (f dst + 1) m.ref_counts, text_beq_iff dst t)

  pub links-add_link :
      (m : LinkManagerInner) (fs : Fs) (src dst : Text)
      → (add_link F (m, fs) src dst).0.links ≡ insert src dst m.links
  unfolding add_link
  links-add_link m fs src dst = refl

  -- A new link beside the ones that are there.
  new_link-IsCounted :
      (m : LinkManagerInner) (fs : Fs) (src dst : Text)
      → IsCounted m
      → length m.links + 1 < usize_mod
      → lookup src m.links ≡ none
      → IsCounted (add_link F (m, fs) src dst).0
  new_link-IsCounted m fs src dst v room e =
      let f : Text → ℕ = λ t. count_value t m.links in
      let c =
        counts-add_link m fs src dst f v.counts
          (omega (arith, count_value-le-length dst m.links)) in
      record {
        unique = rw (links-add_link m fs src dst) (insert-Unique src dst m.links v.unique);
        small = rw (links-add_link m fs src dst) (omega (arith, length-insert-le src dst m.links));
        counts = λ t.
            rw (links-add_link m fs src dst)
              (ground (arith, c t, e, count_value-insert t src dst m.links));
      }

  -- A link that is led elsewhere.
  moved_link-IsCounted :
      (m : LinkManagerInner) (fs : Fs) (src old dst : Text)
      → IsCounted m
      → length m.links + 1 < usize_mod
      → lookup src m.links ≡ some old
      → IsCounted (add_link F (decrease_ref_count F (m, fs) old).1 src dst).0
  moved_link-IsCounted m fs src old dst v room e =
      let f : Text → ℕ = λ t. count_value t m.links in
      let (m', fs') = (decrease_ref_count F (m, fs) old).1 in
      let held = linked-held m src old v e in
      let d =
        counts-decrease m fs old f v.counts held
          (omega (arith, count_value-le-length old m.links, v.small)) in
      let c =
        counts-add_link m' fs' src dst (λ t. f t - one_at old t) d
          (omega (arith, count_value-le-length dst m.links)) in
      let l : (add_link F (m', fs') src dst).0.links ≡ insert src dst m.links =
        links-add_link m' fs' src dst ∙ ap (insert src dst) (links-decrease m fs old) in
      record {
        unique = rw l (insert-Unique src dst m.links v.unique);
        small = rw l (omega (arith, length-insert-le src dst m.links));
        counts = λ t. rw l (
            ground (
              arith,
              c t,
              e,
              held,
              text_beq_iff old t,
              ap f,
              count_value-insert t src dst m.links,
            ));
      }

  update-IsCounted :
      (m : LinkManagerInner) (fs : Fs) (src dst : Text)
      → IsCounted m
      → length m.links + 1 < usize_mod
      → IsCounted (atomic_link_update F (m, fs) src dst).0
  unfolding atomic_link_update
  update-IsCounted m fs src dst v room = elim (Option-cases (lookup src m.links)) [
    | inl e ↦ rw (e, atomic_link_update) (new_link-IsCounted m fs src dst v room e)
    | inr (old, e) ↦ elim (Bool-cases (text_beq old dst)) [
      | inl same ↦ rw (e, atomic_link_update) (rw same v)
      | inr other ↦
          rw (e, atomic_link_update) (rw other (moved_link-IsCounted m fs src old dst v room e))
    ]
  ]

  removed_link-IsCounted :
      (m : LinkManagerInner) (fs : Fs) (src dst : Text)
      → IsCounted m
      → lookup src m.links ≡ some dst
      → IsCounted (decrease_ref_count F (record m { links = remove src m.links }, fs) dst).1.0
  removed_link-IsCounted m fs src dst v e =
      let f : Text → ℕ = λ t. count_value t m.links in
      let m' : LinkManagerInner = record m { links = remove src m.links } in
      let held = linked-held m src dst v e in
      let d =
        counts-decrease m' fs dst f v.counts held
          (omega (arith, count_value-le-length dst m.links, v.small)) in
      record {
        unique = rw (links-decrease m' fs dst) (remove-Unique src m.links v.unique);
        small =
            rw (links-decrease m' fs dst) (omega (arith, v.small, length-remove-le src m.links));
        counts = λ t.
            rw (links-decrease m' fs dst) (
              ground
                (arith, d t, e, text_beq_iff dst t, count_value-remove t src m.links v.unique));
      }

  -- `create_link` keeps every count equal to the number of links to that target, on every branch,
  -- as long as there are fewer than `2 ^ 64 - 1` links.
  pub create_link-IsCounted :
      (m : LinkManagerInner) (fs : Fs) (src dst : Text)
      → IsCounted m
      → length m.links + 1 < usize_mod
      → IsCounted (create_link F (m, fs) src dst).1.0
  unfolding create_link
  create_link-IsCounted m fs src dst v room = ground (arith, update-IsCounted m fs src dst v room)

  atomic_link_remove-IsCounted :
      (m : LinkManagerInner) (fs : Fs) (src : Text)
      → IsCounted m
      → IsCounted (atomic_link_remove F (m, fs) src).1.0
  unfolding atomic_link_remove
  atomic_link_remove-IsCounted m fs src v = elim (Option-cases (lookup src m.links)) [
    | inl e ↦ rw (e, atomic_link_remove) v
    | inr (dst, e) ↦ rw (e, atomic_link_remove) (removed_link-IsCounted m fs src dst v e)
  ]

  -- `remove_link` keeps every count equal to the number of links to that target, on every branch.
  pub remove_link-IsCounted :
      (m : LinkManagerInner) (fs : Fs) (src : Text)
      → IsCounted m
      → IsCounted (remove_link F (m, fs) src).1.0
  unfolding remove_link
  remove_link-IsCounted m fs src v = ground (arith, atomic_link_remove-IsCounted m fs src v)
