-- ===== src/FilePaths/Links/Calls.antt =====
-- What the calls of the manager give, and what they leave behind.
use vegar.Prelude.{
  ◌≡◌, ◌≢◌, ◌⊎◌, refl, ap, inl, inr, true, false, none, some, List, arith, if◌then◌else◌,
  Bool-cases, Option-cases, text_beq, text_beq_iff, text_eq, lookup, insert, remove, lookup-insert,
  lookup-remove, count_value,
}
use vegar.FilePaths.Text.{Text, is_dir}
use vegar.FilePaths.Links.{
  FileSystem, LinkManagerInner, not_found, not_file, real_path, World, atomic_link_update,
  create_link, remove_link,
}
use vegar.FilePaths.Links.Counts.{IsCounted, linked-held, count_value-le-length, links-decrease}

module _ (F : FileSystem) where
  open F use {Fs, exists, remove_file}

  links-update :
      (m : LinkManagerInner) (fs : Fs) (src dst t : Text)
      → lookup t (atomic_link_update F (m, fs) src dst).0.links
        ≡ (if text_beq src t then some dst else lookup t m.links)
  unfolding atomic_link_update
  links-update m fs src dst t = elim (Option-cases (lookup src m.links)) [
    | inl e ↦ ground (arith, e, lookup-insert src t dst m.links)
    | inr (old, e) ↦ ground (
      arith,
      e,
      lookup-insert src t dst m.links,
      text_beq_iff src t,
      text_beq_iff old dst,
      ap (λ (k : Text). lookup k m.links),
      ap (λ (l : List (Text × Text)). lookup t (insert src dst l)) (links-decrease F m fs old),
    )
  ]

  -- `create_link` fails with `NotFound` if the target is not there, and with `NotFile` if the target
  -- does not end in a slash; a failure changes nothing. Else `real_path` of the link is the target,
  -- and that of every other path is what it was.
  pub create_link_cases :
      (m : LinkManagerInner) (fs : Fs) (src dst : Text)
      → let (out, w) = create_link F (m, fs) src dst in
        ((exists fs dst ≡ false) × (out ≡ some not_found) × (w ≡ (m, fs)))
        ⊎ ((exists fs dst ≡ true) × (is_dir dst ≡ false) × (out ≡ some not_file) × (w ≡ (m, fs)))
        ⊎ ((exists fs dst ≡ true)
            × (is_dir dst ≡ true)
            × (out ≡ none)
            × (real_path w.0 src ≡ dst)
            × ((t : Text) → t ≢ src → real_path w.0 t ≡ real_path m t))
  unfolding create_link
  create_link_cases m fs src dst = elim (Bool-cases (exists fs dst)) [
    | inr e ↦ rw e (inl (refl, refl, refl))
    | inl e ↦ elim (Bool-cases (is_dir dst)) [
      | inr d ↦ rw (e, d) (inr (inl (refl, refl, refl, refl)))
      | inl d ↦ rw (e, d) (inr (inr (refl, refl, refl, linked, others)))
    ]
  ]
    where
      w : World F
      w = atomic_link_update F (m, fs) src dst

      linked : real_path w.0 src ≡ dst
      linked =
          unfold real_path in
          ground (arith, links-update m fs src dst src, (text_beq_iff src src).1 refl)

      others : (t : Text) → t ≢ src → real_path w.0 t ≡ real_path m t
      others t ne =
          unfold real_path in ground (arith, links-update m fs src dst t, text_beq_iff src t)

  -- A path that holds no link: `remove_link` removes the file itself, gives the path, and leaves the
  -- links alone; where the file cannot be removed it gives nothing and changes nothing.
  -- A path that is a link: it gives the target, the path is a link no more, and the links of all
  -- other paths stay. If this was the only link to its target, the target file is removed too, where
  -- that succeeds; if not, no file is removed.
  pub remove_link_cases :
      (m : LinkManagerInner) (fs : Fs) (src : Text)
      → IsCounted m
      → let (out, w) = remove_link F (m, fs) src in
        ((lookup src m.links ≡ none)
          × (w.0 ≡ m)
          × (remove_file fs src ≡ none → (out ≡ none) × (w.1 ≡ fs))
          × ((fs' : Fs) → remove_file fs src ≡ some fs' → (out ≡ some src) × (w.1 ≡ fs')))
        ⊎ ((dst : Text) × (lookup src m.links ≡ some dst)
            × (out ≡ some dst)
            × ((t : Text)
                → lookup t w.0.links ≡ (if text_beq src t then none else lookup t m.links))
            × (count_value dst m.links ≢ 1 → w.1 ≡ fs)
            × ((fs' : Fs)
                → count_value dst m.links ≡ 1
                → remove_file fs dst ≡ some fs'
                → w.1 ≡ fs'))
  unfolding remove_link
  remove_link_cases m fs src v = elim (Option-cases (lookup src m.links)) [
    | inl e ↦ inl (e, ground (arith, e), λ r. ground (arith, e), λ fs' r. ground (arith, e))
    | inr (dst, e) ↦ inr (
      dst,
      e,
      ground (arith, e),
      λ t. ground (
        arith,
        e,
        lookup-remove src t m.links,
        links-decrease F (record m { links = remove src m.links }) fs dst,
      ),
      λ n.
          ground
            (arith, e, linked-held m src dst v e, v.counts dst, count_value-le-length dst m.links),
      λ fs' n r. ground (arith, e, v.counts dst),
    )
  ]
