-- ===== src/Agent/Serve/Landed.antt =====
-- What a connection changes at the target.
use mathlib.Core.Path.{subst}
use egdod.Prelude.{
  ◌==◌, ◌≢◌, sym, Option, none, bytes_eq, bytes_eq_iff, arith, ℕ, ◌-◌, ◌≡◌, ◌⊎◌, ◌<◌, ◌^◌, refl, ap,
  ◌∙◌, some, List, [], ◌∷◌, Bytes, length, Result, ok, err, inl, inr, Result-cases, Bool-cases,
  true, false,
}
use egdod.Io.{Stream, Sink}
use egdod.Disk.{FilePath, File, Disk, store, path_eq, path_eq_iff}
use egdod.Proto.{Request, exec, push, pull, forward, accepted}
use egdod.Proto.Frame.{MsgError, read_msg, write_msg}
use egdod.Proto.File.{FileError, recv_file_body}
use egdod.Proto.File.Taken.{delivered}
use egdod.Proto.File.Landing.{IsPart, recv_file_body-eq-ok, recv_file_body-eq-err}
use egdod.Pipe.{Outlet}
use egdod.Agent.Handle.{
  Child, disk_after, Machine, Wire, handle, dispatch, run_push, run_pull, run_forward, join,
}
use egdod.Agent.Serve.{serve_connection}

store_at :
    (d : Disk) (p q : FilePath) (f : File) → path_eq p q ≡ true → store d p (some f) q ≡ some f
unfolding store
store_at d p q f h = rw h

store_away :
    (d : Disk) (p q : FilePath) (f : File) → path_eq p q ≡ false → store d p (some f) q ≡ d q
unfolding store
store_away d p q f h = rw h

-- Two files are the same or not.
File-cases : (a b : Option File) → (a ≡ b) ⊎ (a ≢ b)
File-cases none none = inl refl
File-cases none (some f) = inr (λ e. cc e)
File-cases (some f) none = inr (λ e. cc e)
File-cases (some f) (some g) = elim (Bool-cases (bytes_eq f.content g.content)) [
  | inr e ↦ inr (λ s. cc (e, (bytes_eq_iff f.content g.content).1 (ap content_of s)))
  | inl e ↦ elim (Bool-cases (f.mode == g.mode)) [
    | inr n ↦ inr (λ s. ground (arith, n, ap mode_of s))
    | inl n ↦
        let text : f.content ≡ g.content = (bytes_eq_iff f.content g.content).0 e in
        let modes : f.mode ≡ g.mode = ground (arith, n) in
        inl (
          ap (λ (b : Bytes). some (record { content = b; mode = f.mode })) text
          ∙ ap (λ (n : ℕ). some (record { content = g.content; mode = n })) modes)
  ]
]
  where
    content_of : Option File → Bytes
    content_of none = []
    content_of (some f) = f.content

    mode_of : Option File → ℕ
    mode_of none = 0
    mode_of (some f) = f.mode

module _ (c : Wire) (sha256 : Bytes → Bytes) (show : FileError → Bytes)
    (copy : Stream → Sink → Sink) (m : Machine) where
  -- What a request may do to the file at `q`, which is then `o`. A push brings the bytes that came
  -- after the request, as many as it announced and with its digest, under its mode; or it leaves a
  -- staging file that could not be removed. A command that was started changes a file.
  abbrev pub Touches : FilePath → Option File → Request → Stream → Type 0
  Touches q o (push path mode len digest) rest =
      ((f : File) × (o ≡ some f)
        × (m.path path ≡ q)
        × (f ≡ record { content = delivered (m.reads rest).chunks; mode = mode })
        × (length f.content ≡ len)
        × (sha256 f.content ≡ digest))
      ⊎ ((m.os.remove_ok ≡ false) × IsPart (m.path path) q × (q ≢ m.path path))
  Touches q o (exec argv) rest =
      (program : Bytes) × (args : List Bytes) × (child : Child) × (d : Disk) × (argv
        ≡ program ∷ args)
      × (m.spawn program args ≡ ok child)
      × (o ≡ m.ran program args d q)
      × (o ≢ d q)
  Touches q o (pull path) rest = ⊥
  Touches q o (forward addr) rest = ⊥

  abbrev pub Does : FilePath → Option File → Stream → Type 0
  Does q o r =
      (request : Request) × (rest : Stream) × (read_msg c.requests r ≡ ok (request, rest))
      × Touches q o request rest

  abbrev pub DoneAmong : FilePath → Option File → List (Stream × Sink) → Type 0
  DoneAmong q o [] = ⊥
  DoneAmong q o ((r, w) ∷ more) = Does q o r ⊎ DoneAmong q o more

  module _ (alone : (d : Disk) → m.meanwhile d ≡ d) (room : m.os.disk_room < 2 ^ 64) where
    join-disk :
        (d : Disk) (tcp_r : Stream) (tcp_w : Outlet) (rest : Stream) (x : Result MsgError Sink)
        → (join c sha256 show copy d tcp_r tcp_w rest x).disk ≡ d
    join-disk d tcp_r tcp_w rest (err e) = refl
    join-disk d tcp_r tcp_w rest (ok w) = refl

    run_forward-disk :
        (addr : Bytes) (rest : Stream) (w : Sink) (d : Disk)
        → (run_forward c sha256 show copy m addr rest w d).disk ≡ d
    unfolding run_forward
    run_forward-disk addr rest w d = elim (Result-cases (m.connect addr)) [
      | inl (e, off) ↦ rw (off, run_forward)
      | inr ((tcp_r, tcp_w), on) ↦
          rw (on, run_forward) (join-disk d tcp_r tcp_w rest (write_msg c.acks accepted w))
    ]

    push-disk :
        (path : Bytes) (mode len : ℕ) (digest : Bytes) (rest : Stream) (w : Sink) (d : Disk)
        (q : FilePath)
        → let d' = (run_push c sha256 show m path mode len digest rest w d).disk in
          (d' q ≡ d q) ⊎ Touches q (d' q) (push path mode len digest) rest
    unfolding run_push
    push-disk path mode len digest rest w d q =
        let dest = m.path path in
        let max = 2 ^ 64 - 1 in
        let ran = recv_file_body sha256 m.os (m.reads rest) dest len digest mode max d in
        elim (Result-cases ran.1) [
          | inl (e, bad) ↦
              elim (recv_file_body-eq-err sha256 m.os (m.reads rest) dest len digest mode max d e q
                bad) [
                  | inl same ↦ inl same
                  | inr (stays, free, part, beside) ↦ inr (inr (stays, part, beside))
                ]
          | inr (u, good) ↦
              let (landed, long, hash, below) =
                recv_file_body-eq-ok sha256 m.os (m.reads rest) dest len digest mode max d room
                  good in
              let f : File = record { content = delivered (m.reads rest).chunks; mode = mode } in
              elim (Bool-cases (path_eq dest q)) [
                | inl here ↦ inr (
                    inl (
                      f,
                      landed q ∙ store_at d dest q f here,
                      (path_eq_iff dest q).0 here,
                      refl,
                      long,
                      hash,
                    ))
                | inr away ↦ inl (landed q ∙ store_away d dest q f away)
              ]
        ]

    -- A command: one that was not started changes nothing.
    exec-disk :
        (argv : List Bytes) (rest : Stream) (d : Disk) (q : FilePath)
        → (disk_after c m argv d q ≡ d q) ⊎ Touches q (disk_after c m argv d q) (exec argv) rest
    exec-disk [] rest d q = inl refl
    exec-disk (program ∷ args) rest d q = elim (Result-cases (m.spawn program args)) [
      | inl (e, off) ↦ inl (rw off)
      | inr (child, on) ↦ elim (File-cases (m.ran program args d q) (d q)) [
        | inl same ↦ inl (rw on same)
        | inr differs ↦ inr (program, args, child, d, refl, on, rw on, rw on differs)
      ]
    ]

    dispatch-disk :
        (request : Request) (rest : Stream) (w : Sink) (d : Disk) (q : FilePath)
        → let d' = (dispatch c sha256 show copy m request rest w d).disk in
          (d' q ≡ d q) ⊎ Touches q (d' q) request rest
    unfolding dispatch run_pull
    dispatch-disk (exec argv) rest w d q = exec-disk argv rest d q
    dispatch-disk (pull path) rest w d q = inl (ap (λ (d' : Disk). d' q) (alone d))
    dispatch-disk (forward addr) rest w d q =
        inl (ap (λ (d' : Disk). d' q) (run_forward-disk addr rest w d))
    dispatch-disk (push path mode len digest) rest w d q = push-disk path mode len digest rest w d q

    handle-disk :
        (r : Stream) (w : Sink) (d : Disk) (q : FilePath)
        → let d' = (handle c sha256 show copy m r w d).disk in (d' q ≡ d q) ⊎ Does q (d' q) r
    unfolding handle
    handle-disk r w d q = elim (Result-cases (read_msg c.requests r)) [
      | inl (e, bad) ↦ inl (rw (bad, handle))
      | inr ((request, rest), good) ↦ elim (dispatch-disk request rest w d q) [
        | inl same ↦ inl (rw (good, handle) same)
        | inr touches ↦ inr (request, rest, good, rw (good, handle) touches)
      ]
    ]

    -- After the requests of a connection, each file of the target is as it was before, or one of the
    -- requests accounts for it as it is: a push brought it whole, with the bytes that came after that
    -- request, its mode, and the length and the digest that it announced; or a push could not remove
    -- its staging file there; or a command that was started changed it. Nothing else changes a file,
    -- while nobody else does.
    pub serve_connection-changes :
        (requests : List (Stream × Sink)) (d : Disk) (q : FilePath)
        → let d' = (serve_connection c sha256 show copy m requests d).0 in
          (d' q ≡ d q) ⊎ DoneAmong q (d' q) requests
    unfolding serve_connection
    serve_connection-changes [] d q = inl refl
    serve_connection-changes ((r, w) ∷ more) d q =
        let h = handle c sha256 show copy m r w d in
        elim (serve_connection-changes more h.disk q) [
          | inr among ↦ inr (inr among)
          | inl kept ↦ elim (handle-disk r w d q) [
            | inl same ↦ inl (kept ∙ same)
            | inr does ↦ inr (inl (subst (λ (o : Option File). Does q o r) (sym kept) does))
          ]
        ]
