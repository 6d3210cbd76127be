-- ===== src/State/Atomic/Whole.antt =====
-- What a reader sees of a file that `write_atomic` replaces.
use mathlib.Core.Path.{subst}
use egdod.Prelude.{
  take_all, ℕ, ◌≤◌, ◌≡◌, ◌≢◌, ◌⊎◌, inl, inr, refl, sym, ap, ◌∙◌, none, some, [], ◌∷◌, ◌++◌, Bytes,
  codes, bytes_eq, bytes_eq_iff, bytes_eq_refl, length, length-append, take, Bool-cases,
  Option-cases, arith,
}
use egdod.Disk.{FilePath, Disk, store, store_same, store_other, rename}
use egdod.State.Key.{unique_tmp, name_of}
use egdod.State.Atomic.{
  mode_of, written, Phase, idle, staging, System, in_phase, Step, opens, puts, renames, stops,
  Reach, start, later, write_atomic, WriteCalls,
}

suffix_inj : (a b c : Bytes) → a ++ b ≡ a ++ c → b ≡ c
suffix_inj [] b c h = h
suffix_inj (x ∷ a) b c h = suffix_inj a b c (cc h)

unique_tmp_inj : (p q : Bytes) (path : FilePath) → unique_tmp p path ≡ unique_tmp q path → p ≡ q
unique_tmp_inj p q path h =
    let names : name_of path ++ (codes ".tmp." ++ p) ≡ name_of path ++ (codes ".tmp." ++ q) =
      cc h in
    suffix_inj (codes ".tmp.") p q (suffix_inj (name_of path) _ _ names)

module _ (path : FilePath) (IsBody : Bytes → Type 0) where
  abbrev tmp : Bytes → FilePath
  tmp pid = unique_tmp pid path

  tmp-ne : (pid : Bytes) → tmp pid ≢ path
  tmp-ne pid e =
      let same : some (name_of path ++ (codes ".tmp." ++ pid)) ≡ path.name =
        ap (λ (p : FilePath). p.name) e in
      elim (Option-cases path.name) [
        | inl bare ↦ absurd (cc (same, bare))
        | inr (name, named) ↦
            let base : name_of path ≡ name = rw named refl in
            let longer : name_of path ++ (codes ".tmp." ++ pid) ≡ name = cc (same, named) in
            omega (
              arith,
              ap length longer,
              ap length base,
              length-append (name_of path) (codes ".tmp." ++ pid),
            )
      ]

  -- The bytes that a process at work means to write are allowed, and its own staging file begins
  -- with them.
  abbrev IsStaged : Disk → Bytes → Phase → Type 0
  IsStaged d pid idle = Unit
  IsStaged d pid (staging body n) =
      IsBody body
      × ((mode : ℕ) × (d (tmp pid) ≡ some (record { content = take n body; mode = mode })))

  IsStaged-same :
      (d d' : Disk) (pid : Bytes) (ph : Phase)
      → d' (tmp pid) ≡ d (tmp pid)
      → IsStaged d pid ph
      → IsStaged d' pid ph
  IsStaged-same d d' pid idle e h = tt
  IsStaged-same d d' pid (staging body n) e (b, (mode, put)) = (b, (mode, e ∙ put))

  abbrev AllStaged : Disk → (Bytes → Phase) → Type 0
  AllStaged d phase = (pid : Bytes) → IsStaged d pid (phase pid)

  in_phase-AllStaged :
      (s : System) (pid : Bytes) (ph : Phase) (d' : Disk)
      → AllStaged s.disk s.phase
      → IsStaged d' pid ph
      → ((other : Bytes) → pid ≢ other → d' (tmp other) ≡ s.disk (tmp other))
      → AllStaged d' (in_phase s pid ph)
  in_phase-AllStaged s pid ph d' all own same other = elim (Bool-cases (bytes_eq pid other)) [
    | inl e ↦ rw e (subst (λ (q : Bytes). IsStaged d' q ph) ((bytes_eq_iff pid other).0 e) own)
    | inr e ↦
        let off : pid ≢ other = λ same_pid. cc ((bytes_eq_iff pid other).1 same_pid, e) in
        rw e (IsStaged-same s.disk d' other (s.phase other) (same other off) (all other))
  ]

  apart : (p q : Bytes) → p ≢ q → tmp p ≢ tmp q
  apart p q ne e = ne (unique_tmp_inj p q path e)

  -- What a reader may find at the path.
  abbrev pub IsWhole : Disk → Disk → Type 0
  IsWhole d₀ d =
      (d path ≡ d₀ path)
      ⊎ ((body : Bytes) × IsBody body
          × ((mode : ℕ) × (d path ≡ some (record { content = body; mode = mode }))))

  IsWhole-same : (d₀ d d' : Disk) → d' path ≡ d path → IsWhole d₀ d → IsWhole d₀ d'
  IsWhole-same d₀ d d' e (inl old) = inl (e ∙ old)
  IsWhole-same d₀ d d' e (inr (body, b, (mode, put))) = inr (body, b, (mode, e ∙ put))

  abbrev Inv : Disk → System → Type 0
  Inv d₀ s = IsWhole d₀ s.disk × AllStaged s.disk s.phase

  -- Writing the staging file of one process touches no other one's, nor the path.
  written-Inv :
      (d₀ : Disk) (s : System) (pid body : Bytes) (n : ℕ)
      → IsBody body
      → Inv d₀ s
      → Inv d₀ (record {
        disk = written s.disk (tmp pid) (take n body);
        phase = in_phase s pid (staging body n);
      })
  written-Inv d₀ s pid body n b (whole, all) =
      let d' : Disk = written s.disk (tmp pid) (take n body) in
      (
        IsWhole-same d₀ s.disk d' (store_other s.disk (tmp pid) path _ (tmp-ne pid)) whole,
        in_phase-AllStaged s pid (staging body n) d' all
            (b, (mode_of (s.disk (tmp pid)), store_same s.disk (tmp pid) _))
            (λ other off. store_other s.disk (tmp pid) (tmp other) _ (apart pid other off)),
      )

  staged :
      (d : Disk) (pid body : Bytes) (n : ℕ) (ph : Phase)
      → ph ≡ staging body n
      → IsStaged d pid ph
      → IsStaged d pid (staging body n)
  staged d pid body n ph e h = subst (λ (q : Phase). IsStaged d pid q) e h

  renamed-Inv :
      (d₀ : Disk) (s : System) (pid body : Bytes) (n : ℕ)
      → s.phase pid ≡ staging body n
      → length body ≤ n
      → Inv d₀ s
      → Inv d₀ (record { disk = rename s.disk (tmp pid) path; phase = in_phase s pid idle })
  unfolding rename
  renamed-Inv d₀ s pid body n at full (whole, all) =
      let d' : Disk = rename s.disk (tmp pid) path in
      let (b, (mode, put)) = staged s.disk pid body n (s.phase pid) at (all pid) in
      let new : d' path ≡ some (record { content = body; mode = mode }) =
        store_other (store s.disk path (s.disk (tmp pid))) (tmp pid) path none (tmp-ne pid)
        ∙ store_same s.disk path (s.disk (tmp pid))
        ∙ put
        ∙ ap (λ (b : Bytes). some (record { content = b; mode = mode })) (take_all n body full) in
      (
        inr (body, b, (mode, new)),
        in_phase-AllStaged s pid idle d' all tt (λ other off.
            store_other _ (tmp pid) (tmp other) none (apart pid other off)
            ∙ store_other s.disk path (tmp other) _ (λ e. tmp-ne other (sym e))),
      )

  Step-Inv : (d₀ : Disk) {s t : System} → Inv d₀ s → Step path IsBody s t → Inv d₀ t
  Step-Inv d₀ h (opens s pid body b) = written-Inv d₀ s pid body 0 b h
  Step-Inv d₀ h (puts s pid body n m at) =
      written-Inv d₀ s pid body m (staged s.disk pid body n (s.phase pid) at (h.1 pid)).0 h
  Step-Inv d₀ h (renames s pid body n at full) = renamed-Inv d₀ s pid body n at full h
  Step-Inv d₀ h (stops s pid) =
      (h.0, in_phase-AllStaged s pid idle s.disk h.1 tt (λ other off. refl))

  -- However the processes that replace the file take turns, and wherever one of them is cut off, what
  -- stands at the path is at every moment what stood there before any of them, or the whole of the
  -- bytes that one of them meant to write.
  pub Reach-IsWhole : (d₀ : Disk) (s : System) → Reach path IsBody d₀ s → IsWhole d₀ s.disk
  Reach-IsWhole d₀ s r = (invariant d₀ s r).0
    where
      invariant : (d : Disk) (u : System) → Reach path IsBody d u → Inv d u
      invariant d u start = (inl refl, λ pid. tt)
      invariant d u (later {s = s} {t = t} before step) = Step-Inv d (invariant d s before) step

  -- A call of `write_atomic` is such a sequence of steps of its process, whatever the operating
  -- system answers.
  pub write_atomic-Reach :
      (c : WriteCalls) (pid body : Bytes) (d₀ : Disk) (s : System)
      → IsBody body
      → Reach path IsBody d₀ s
      → (t : System) × Reach path IsBody d₀ t × (t.disk ≡ (write_atomic c pid path body s.disk).0)
  unfolding write_atomic
  write_atomic-Reach c pid body d₀ s b r =
      let opened : System = record {
        disk = written s.disk (tmp pid) [];
        phase = in_phase s pid (staging body 0);
      } in
      let opening : Reach path IsBody d₀ opened = later r (opens s pid body b) in
      let mine : (v : System) (n : ℕ) → in_phase v pid (staging body n) pid ≡ staging body n =
        λ v n. rw (bytes_eq_refl pid) refl in
      let put : ℕ → System = λ m. record {
        disk = written opened.disk (tmp pid) (take m body);
        phase = in_phase opened pid (staging body m);
      } in
      let putting : (m : ℕ) → Reach path IsBody d₀ (put m) =
        λ m. later opening (puts opened pid body 0 m (mine s 0)) in
      let all : (put (length body)).disk ≡ written opened.disk (tmp pid) body =
        ap (λ (b : Bytes). written opened.disk (tmp pid) b)
          (take_all (length body) body (omega arith)) in
      elim (Bool-cases c.open_ok) [
        | inr e ↦ (s, r, rw e refl)
        | inl o ↦ elim (Bool-cases c.write_ok) [
          | inr e ↦ (put c.partial, putting c.partial, rw (o, e) refl)
          | inl w ↦ elim (Bool-cases c.rename_ok) [
            | inr e ↦ (put (length body), putting (length body), rw (o, w, e) all)
            | inl e ↦ (
              record {
                disk = rename (put (length body)).disk (tmp pid) path;
                phase = in_phase (put (length body)) pid idle;
              },
              later (putting (length body)) (
                  renames (put (length body)) pid body (length body) (mine opened (length body))
                    (omega arith)),
              rw (o, w, e) (ap (λ (x : Disk). rename x (tmp pid) path) all),
            )
          ]
        ]
      ]
