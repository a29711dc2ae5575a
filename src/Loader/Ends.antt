-- ===== src/Loader/Ends.antt =====
-- When `load_user_app` of core/src/mm.rs, which calls itself for an interpreter, comes to an end.
use vegar.Prelude.{
  ℕ, zero, suc, ◌<◌, ◌≡◌, refl, ◌∙◌, inl, inr, none, some, List, ◌∷◌, ◌++◌, arith,
  LinuxResult-cases, LinuxError, ok, err,
}
use mathlib.Core.Logic.{◌⊎◌}
use vegar.Memory.AddrSpace.{AddrSpace}
use vegar.Loader.Text.{Text}
use vegar.Loader.Elf.{Load, failed, panicked, Programs, Platform}
use vegar.Loader.Load.{Next, runs, maps, stops, breaks, next_of, load_elf, load_user_app}

Next-cases :
    {Elf : Type 0} (n : Next Elf)
    → ((interp : Text) × ((before : List Text) × (n ≡ runs interp before)))
      ⊎ (((elf : Elf) × (n ≡ maps elf)) ⊎ (((e : LinuxError) × (n ≡ stops e)) ⊎ (n ≡ breaks)))
Next-cases (runs interp before) = inl (interp, (before, refl))
Next-cases (maps elf) = inr (inl (elf, refl))
Next-cases (stops e) = inr (inr (inl (e, refl)))
Next-cases breaks = inr (inr (inr refl))

module _ (A : AddrSpace) (P : Programs) (plat : Platform) where
  -- The interpreter that a file asks for has a lower rank than the file.
  abbrev pub Descends : (Text → ℕ) → Type 0
  Descends rank =
      (path bytes interp : Text) (before : List Text)
      → P.read path ≡ ok bytes
      → next_of P bytes ≡ runs interp before
      → rank interp < rank path

  module _ (fuel : ℕ) (path : Text) (args envs : List Text) (s : A.Space) where
    pub load_unread :
        (e : LinuxError)
        → P.read path ≡ err e
        → load_user_app A P plat (suc fuel) (path ∷ args) envs s ≡ some (failed e, s)
    unfolding load_user_app
    load_unread e h = rw (load_user_app, h) refl

    pub load_interpreted :
        (bytes interp : Text) (before : List Text)
        → P.read path ≡ ok bytes
        → next_of P bytes ≡ runs interp before
        → load_user_app A P plat (suc fuel) (path ∷ args) envs s
          ≡ load_user_app A P plat fuel (interp ∷ before ++ path ∷ args) envs s
    unfolding load_user_app
    load_interpreted bytes interp before h n = rw (load_user_app, h, n) refl

    pub load_mapped :
        (bytes : Text) (elf : P.Elf)
        → P.read path ≡ ok bytes
        → next_of P bytes ≡ maps elf
        → load_user_app A P plat (suc fuel) (path ∷ args) envs s
          ≡ some (load_elf A P plat bytes elf (path ∷ args) envs s)
    unfolding load_user_app
    load_mapped bytes elf h n = rw (load_user_app, h, n) refl

    load_stopped :
        (bytes : Text) (e : LinuxError)
        → P.read path ≡ ok bytes
        → next_of P bytes ≡ stops e
        → load_user_app A P plat (suc fuel) (path ∷ args) envs s ≡ some (failed e, s)
    unfolding load_user_app
    load_stopped bytes e h n = rw (load_user_app, h, n) refl

    load_broken :
        (bytes : Text)
        → P.read path ≡ ok bytes
        → next_of P bytes ≡ breaks
        → load_user_app A P plat (suc fuel) (path ∷ args) envs s ≡ some (panicked, s)
    unfolding load_user_app
    load_broken bytes h n = rw (load_user_app, h, n) refl

  -- If each interpreter has a lower rank than the file that asks for it, `load_user_app` ends: as many
  -- nested calls as the rank of the first argument, and one more, are enough.
  pub load_user_app_ends :
      (rank : Text → ℕ)
      → Descends rank
      → (fuel : ℕ) (path : Text) (args envs : List Text) (s : A.Space) → rank path < fuel
      → (end : Load (ℕ × ℕ) × A.Space) × (load_user_app A P plat fuel (path ∷ args) envs s
          ≡ some end)
  load_user_app_ends rank descends zero path args envs s h = absurd (omega arith)
  load_user_app_ends rank descends (suc fuel) path args envs s h =
      elim (LinuxResult-cases (P.read path)) [
        | inl (e, unread) ↦ ((failed e, s), load_unread fuel path args envs s e unread)
        | inr (bytes, there) ↦ elim (Next-cases (next_of P bytes)) [
          | inl (interp, (before, n)) ↦
              let lower = descends path bytes interp before there n in
              let (end, ends) =
                load_user_app_ends rank descends fuel interp (before ++ path ∷ args) envs s
                  (omega arith) in
              (end, load_interpreted fuel path args envs s bytes interp before there n ∙ ends)
          | inr (inl (elf, n)) ↦ (
            load_elf A P plat bytes elf (path ∷ args) envs s,
            load_mapped fuel path args envs s bytes elf there n,
          )
          | inr (inr (inl (e, n))) ↦
              ((failed e, s), load_stopped fuel path args envs s bytes e there n)
          | inr (inr (inr n)) ↦ ((panicked, s), load_broken fuel path args envs s bytes there n)
        ]
      ]

  -- A file that asks for itself as its interpreter is never loaded: `load_user_app` calls itself
  -- however often it has done so.
  pub load_user_app_loops :
      (path bytes : Text) (before : List Text)
      → P.read path ≡ ok bytes
      → next_of P bytes ≡ runs path before
      → (fuel : ℕ) (args envs : List Text) (s : A.Space)
      → load_user_app A P plat fuel (path ∷ args) envs s ≡ none
  unfolding load_user_app
  load_user_app_loops path bytes before there n zero args envs s = refl
  load_user_app_loops path bytes before there n (suc fuel) args envs s =
      load_interpreted fuel path args envs s bytes path before there n
      ∙ load_user_app_loops path bytes before there n fuel (before ++ path ∷ args) envs s
