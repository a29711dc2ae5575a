-- ===== src/Files/Prefix.antt =====
-- What `sys_writev` of api/src/imp/fs/io.rs has written when it returns.
use mathlib.Core.Path.{subst}
use mathlib.Core.Logic.{◌⊎◌}
use vegar.Prelude.{
  ℕ, zero, suc, ◌+◌, ◌≤◌, ◌<◌, ◌≡◌, refl, sym, ap, ◌∙◌, true, inl, inr, Bool-cases, List, [], ◌∷◌,
  ◌++◌, append-nil, append_assoc, arith, ltb, leb, ◌==◌, if◌then◌else◌, LinuxError, LinuxResult, ok,
  err, add_usize, usize_mod, length, take, length-append,
}
use vegar.Pointers.Access.{Access, returns, panics}
use vegar.FdTable.Objects.{FlattenObjects}
use vegar.Files.Objects.{Inner, Object}
use vegar.Files.Vectors.{Iovec, UserBuffers, write_fd, after_write, writev_loop, sys_writev}

take_within : {A : Type 0} (n : ℕ) (xs ys : List A) → n ≤ length xs → take n (xs ++ ys) ≡ take n xs
take_within zero xs ys h = refl
take_within (suc n) [] ys h = absurd (omega arith)
take_within (suc n) (x ∷ xs) ys h = ap (λ (t : List _). x ∷ t) (take_within n xs ys (omega arith))

take_over :
    {A : Type 0} (k : ℕ) (xs ys : List A) → take (length xs + k) (xs ++ ys) ≡ xs ++ take k ys
take_over k [] ys = ap (λ (n : ℕ). take n ys) (omega arith)
take_over k (x ∷ xs) ys =
    let step : length (x ∷ xs) + k ≡ suc (length xs + k) = omega arith in
    rw step (ap (λ (t : List _). x ∷ t) (take_over k xs ys))

take_full : {A : Type 0} (xs : List A) → take (length xs) xs ≡ xs
take_full [] = refl
take_full (x ∷ xs) = ap (λ (t : List _). x ∷ t) (take_full xs)

Access-cases :
    {A : Type 0} (o : Access A)
    → (o ≡ panics) ⊎ (((e : LinuxError) × (o ≡ returns (err e))) ⊎ ((a : A) × (o ≡ returns (ok a))))
Access-cases panics = inl refl
Access-cases (returns (err e)) = inr (inl (e, refl))
Access-cases (returns (ok a)) = inr (inr (a, refl))

module _ {State : Type 0} (I : Inner State) (O : FlattenObjects (Object I)) (U : UserBuffers) where
  -- An output: what it has got so far. A write that succeeds appends as many bytes of the buffer as it
  -- says, and one that fails appends none.
  pub record Output (t : O.Table) (fd : ℕ) : Type 0 where
    pub sent : State → List ℕ
    pub sent-ok :
        (buf : List ℕ) (n : ℕ) (s : State)
        → (write_fd I O U t fd buf s).0 ≡ ok n
        → (n ≤ length buf) × (sent (write_fd I O U t fd buf s).1 ≡ sent s ++ take n buf)
    pub sent-err :
        (buf : List ℕ) (e : LinuxError) (s : State)
        → (write_fd I O U t fd buf s).0 ≡ err e
        → sent (write_fd I O U t fd buf s).1 ≡ sent s

  -- The bytes of the buffers, up to one that cannot be read.
  unfoldable pub gathered : List Iovec → List ℕ
  gathered [] = []
  gathered (iov ∷ iovs) =
      let rest = gathered iovs in
      if iov.iov_len == 0 then rest else (elim (U.slice iov.iov_base iov.iov_len) [
        | panics ↦ []
        | returns (err e) ↦ []
        | returns (ok buf) ↦ buf ++ rest
      ])

  module _ (t : O.Table) (fd : ℕ) (W : Output t fd) where
    -- The first `k` of the bytes were written, and a call that succeeds returns `ret + k`.
    pub record Wrote (bytes : List ℕ) (ret : ℕ) (s : State) (r : Access ℕ × State) : Type 0 where
      pub count : ℕ
      pub count_le : count ≤ length bytes
      pub sent_prefix : W.sent r.1 ≡ W.sent s ++ take count bytes
      pub answers :
          (r.0 ≡ returns (ok (add_usize ret count)))
          ⊎ (((e : LinuxError) × (r.0 ≡ returns (err e))) ⊎ (r.0 ≡ panics))

    err-Wrote :
        (bytes : List ℕ) (ret : ℕ) (s s' : State) (e : LinuxError)
        → W.sent s' ≡ W.sent s
        → Wrote bytes ret s (returns (err e), s')
    err-Wrote bytes ret s s' e same = record {
      count = 0;
      count_le = omega arith;
      sent_prefix = same ∙ sym (append-nil (W.sent s));
      answers = inr (inl (e, refl));
    }

    panics-Wrote : (bytes : List ℕ) (ret : ℕ) (s : State) → Wrote bytes ret s (panics, s)
    panics-Wrote bytes ret s = record {
      count = 0;
      count_le = omega arith;
      sent_prefix = sym (append-nil (W.sent s));
      answers = inr (inr refl);
    }

    -- A buffer that was written whole, and what comes after it.
    append-Wrote :
        (buf rest : List ℕ) (ret : ℕ) (s s' : State) (r : Access ℕ × State)
        → W.sent s' ≡ W.sent s ++ buf
        → Wrote rest (add_usize ret (length buf)) s' r
        → Wrote (buf ++ rest) ret s r
    append-Wrote buf rest ret s s' r whole later = record {
      count = length buf + later.count;
      count_le = omega (arith, later.count_le, length-append buf rest);
      sent_prefix =
          later.sent_prefix
          ∙ ap (λ (xs : List ℕ). xs ++ take later.count rest) whole
          ∙ append_assoc (W.sent s) buf (take later.count rest)
          ∙ ap (λ (xs : List ℕ). W.sent s ++ xs) (sym (take_over later.count buf rest));
      answers = elim later.answers [
        | inl good ↦
            let sum : add_usize (add_usize ret (length buf)) later.count
                ≡ add_usize ret (length buf + later.count) =
              omega arith in
            inl (good ∙ ap (λ k. returns (ok k)) sum)
        | inr bad ↦ inr bad
      ];
    }

    after_write-Wrote :
        (buf rest : List ℕ) (ret : ℕ) (s : State) (r : LinuxResult ℕ × State)
        (go : ℕ → State → Access ℕ × State)
        → ((n : ℕ) → r.0 ≡ ok n → (n ≤ length buf) × (W.sent r.1 ≡ W.sent s ++ take n buf))
        → ((e : LinuxError) → r.0 ≡ err e → W.sent r.1 ≡ W.sent s)
        → ((ret' : ℕ) (s' : State) → ret' < usize_mod → Wrote rest ret' s' (go ret' s'))
        → Wrote (buf ++ rest) ret s (after_write I O U (length buf) ret r go)
    after_write-Wrote buf rest ret s (err e, s') go on_ok on_err later =
        err-Wrote (buf ++ rest) ret s s' e (on_err e refl)
    after_write-Wrote buf rest ret s (ok n, s') go on_ok on_err later =
        let (fits, there) = on_ok n refl in
        elim (Bool-cases (ltb n (length buf))) [
          | inl short ↦ rw short (record {
            count = n;
            count_le = omega (arith, fits, length-append buf rest);
            sent_prefix =
                there ∙ ap (λ (xs : List ℕ). W.sent s ++ xs) (sym (take_within n buf rest fits));
            answers = inl refl;
          })
          | inr whole ↦
              let all : n ≡ length buf = ground (arith, whole, fits) in
              let taken : take n buf ≡ buf = ap (λ (k : ℕ). take k buf) all ∙ take_full buf in
              rw whole (
                append-Wrote buf rest ret s s' (go (add_usize ret n) s')
                  (there ∙ ap (λ (xs : List ℕ). W.sent s ++ xs) taken)
                  (subst (λ (k : ℕ). Wrote rest (add_usize ret k) s' (go (add_usize ret n) s')) all
                    (later (add_usize ret n) s' (omega arith))))
        ]

    writev_loop-Wrote :
        (iovs : List Iovec) (ret : ℕ) (s : State)
        → ret < usize_mod
        → Wrote (gathered iovs) ret s (writev_loop I O U t fd iovs ret s)
    unfolding gathered writev_loop
    writev_loop-Wrote [] ret s small = record {
      count = 0;
      count_le = omega arith;
      sent_prefix = sym (append-nil (W.sent s));
      answers = inl (ap (λ k. returns (ok k)) (omega (arith, small)));
    }
    writev_loop-Wrote (iov ∷ iovs) ret s small = elim (Bool-cases (iov.iov_len == 0)) [
      | inl empty ↦ rw empty (writev_loop-Wrote iovs ret s small)
      | inr some_bytes ↦ elim (Access-cases (U.slice iov.iov_base iov.iov_len)) [
        | inl bad ↦ rw (some_bytes, bad) (panics-Wrote [] ret s)
        | inr (inl (e, bad)) ↦ rw (some_bytes, bad) (err-Wrote [] ret s s e refl)
        | inr (inr (buf, good)) ↦
            rw (some_bytes, good)
              (after_write-Wrote buf (gathered iovs) ret s (write_fd I O U t fd buf s)
                (λ ret' s'. writev_loop I O U t fd iovs ret' s') (λ n. W.sent-ok buf n s)
                (λ e. W.sent-err buf e s) (λ ret' s' small'. writev_loop-Wrote iovs ret' s' small'))
      ]
    ]

    -- With at most 1024 buffers that can be read as an array, all buffers together shorter than
    -- `2 ^ 64` bytes, and a descriptor that appends what a write says to its output, `sys_writev`
    -- appends the first bytes of its buffers, read one after the other up to one that cannot be
    -- accessed. If it succeeds it returns how many bytes it has appended; if it fails, or the kernel
    -- panics on a buffer that is too long for a layout, it may have appended some too.
    pub sys_writev_appends :
        (iov iocnt : ℕ) (iovs : List Iovec) (s : State)
        → iocnt ≤ 1024
        → U.iovecs iov iocnt ≡ ok iovs
        → length (gathered iovs) < usize_mod
        → (count : ℕ) × (count ≤ length (gathered iovs))
          × (W.sent (sys_writev I O U t fd iov iocnt s).1 ≡ W.sent s ++ take count (gathered iovs))
          × (((sys_writev I O U t fd iov iocnt s).0 ≡ returns (ok count))
              ⊎ (((e : LinuxError) × ((sys_writev I O U t fd iov iocnt s).0 ≡ returns (err e)))
                  ⊎ ((sys_writev I O U t fd iov iocnt s).0 ≡ panics)))
    unfolding sys_writev
    sys_writev_appends iov iocnt iovs s few array small =
        let limit : leb iocnt 1024 ≡ true = ground (arith, few) in
        let w = writev_loop-Wrote iovs 0 s (omega arith) in
        rw (limit, array)
          (
            w.count,
            w.count_le,
            w.sent_prefix,
            elim w.answers [
              | inl good ↦ inl (good ∙ ap (λ k. returns (ok k)) (omega (arith, w.count_le, small)))
              | inr bad ↦ inr bad
            ],
          )
