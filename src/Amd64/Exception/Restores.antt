-- ===== src/Amd64/Exception/Restores.antt =====
-- What the exception entry saves and its exit restores.
use clearram.Base.{
  ℕ, zero, suc, Bool, true, false, ◌≡◌, refl, ap, ◌+◌, ◌*◌, ◌/◌, ◌%◌, ◌^◌, ◌==◌, ltb, add64, sub64,
  if◌then◌else◌, fun_ext, ◌<◌, arith, ◌∙◌, lt→ltb, ==_refl,
}
use clearram.Clear.Regs.{CpuRegs}
use clearram.Amd64.Exception.{
  Reg, Machine, Resumed, Ended, resumed, at_ud2, lost, Answer, exc_handler, iretq, drop, run, exit,
  regs_at, behind_call, entry, push, is_selector,
}

-- The stack pointer so many words lower.
abbrev lowered : (words rsp : ℕ) → ℕ
lowered zero rsp = rsp
lowered (suc n) rsp = sub64 (lowered n rsp) 8

abbrev selector_word : (below selector : ℕ) → ℕ
selector_word below selector = below / 2 ^ 16 * 2 ^ 16 + selector % 2 ^ 16

-- Behind the words of the processor, which begin with an error code or not.
abbrev code_words : Bool → ℕ
code_words code = if code then 1 else 0

-- The struct that the handler is given. The words of DS, ES, FS and GS hold GS, FS, ES and DS, and
-- the word of RSP is the address of the words pushed before plus a word of memory.
abbrev pub saved_regs :
    (word_at below : ℕ → ℕ) (code : Bool) (vec_hex return_to : ℕ) → Machine → CpuRegs
saved_regs word_at below code vec_hex return_to m =
    let from = code_words code in
    record {
      cr0 = m.regs Reg.cr0;
      cr2 = m.regs Reg.cr2;
      cr3 = m.regs Reg.cr3;
      cr4 = m.regs Reg.cr4;
      ds = selector_word (below 0) (m.regs Reg.gs);
      es = selector_word (below 1) (m.regs Reg.fs);
      fs = selector_word (below 2) (m.regs Reg.es);
      gs = selector_word (below 3) (m.regs Reg.ds);
      rax = m.regs Reg.rax;
      rbx = m.regs Reg.rbx;
      rcx = m.regs Reg.rcx;
      rdx = m.regs Reg.rdx;
      rsi = m.regs Reg.rsi;
      rdi = m.regs Reg.rdi;
      rbp = m.regs Reg.rbp;
      rsp = add64 (lowered (if code then 10 else 11) (m.regs Reg.rsp)) (word_at 128);
      r8 = m.regs Reg.r8;
      r9 = m.regs Reg.r9;
      r10 = m.regs Reg.r10;
      r11 = m.regs Reg.r11;
      r12 = m.regs Reg.r12;
      r13 = m.regs Reg.r13;
      r14 = m.regs Reg.r14;
      r15 = m.regs Reg.r15;
      unused0 = return_to;
      vecno = vec_hex;
      errno = if code then m.stack 0 else 0;
      orig_rip = m.stack from;
      orig_cs = m.stack (1 + from);
      orig_cflags = m.stack (2 + from);
      orig_ss = m.stack (3 + from);
      unused1 = m.stack (4 + from);
    }

-- The state that the words of a struct are restored to. The stack pointer is the word of the
-- processor that the struct names `orig_ss`.
abbrev pub restored : CpuRegs → Resumed
restored f = record {
  regs = λ r. elim r [
    | Reg.cr0 ↦ f.cr0
    | Reg.cr2 ↦ f.cr2
    | Reg.cr3 ↦ f.cr3
    | Reg.cr4 ↦ f.cr4
    | Reg.ds ↦ f.ds % 2 ^ 16
    | Reg.es ↦ f.es % 2 ^ 16
    | Reg.fs ↦ f.fs % 2 ^ 16
    | Reg.gs ↦ f.gs % 2 ^ 16
    | Reg.rax ↦ f.rax
    | Reg.rbx ↦ f.rbx
    | Reg.rcx ↦ f.rcx
    | Reg.rdx ↦ f.rdx
    | Reg.rsi ↦ f.rsi
    | Reg.rdi ↦ f.rdi
    | Reg.rbp ↦ f.rbp
    | Reg.rsp ↦ f.orig_ss
    | Reg.r8 ↦ f.r8
    | Reg.r9 ↦ f.r9
    | Reg.r10 ↦ f.r10
    | Reg.r11 ↦ f.r11
    | Reg.r12 ↦ f.r12
    | Reg.r13 ↦ f.r13
    | Reg.r14 ↦ f.r14
    | Reg.r15 ↦ f.r15
  ];
  rip = f.orig_rip;
  cs = f.orig_cs;
  rflags = f.orig_cflags;
  ss = f.unused1;
}

-- By the sign of the status the entry comes to its own `ud2` with the handler's answer, or the state is the one of the struct as
-- the handler leaves it.
abbrev pub ended : (return_to : ℕ) → Answer → Ended
ended return_to a =
    if ltb a.status (2 ^ 63)
    then (if a.cpu_regs.unused0 == return_to then resumed (restored a.cpu_regs) else lost)
    else at_ud2 a

with_regs :
    (return_to : ℕ) (a : Answer) (regs : Reg → ℕ)
    → ((r : Reg) → regs r ≡ (restored a.cpu_regs).regs r)
    → (if ltb a.status (2 ^ 63)
        then (if a.cpu_regs.unused0 == return_to
            then resumed (record (restored a.cpu_regs) { regs = regs })
            else lost)
        else at_ud2 a)
      ≡ ended return_to a
with_regs return_to a regs same =
    ap
      (λ (rs : Reg → ℕ).
        if ltb a.status (2 ^ 63)
        then (if a.cpu_regs.unused0 == return_to
            then resumed (record (restored a.cpu_regs) { regs = rs })
            else lost)
        else at_ud2 a)
      (fun_ext same)

restores :
    (word_at below : ℕ → ℕ) (m : Machine) (r : Reg)
    → (iretq (drop 2 (drop 1 (run word_at below exit m)))).regs r
      ≡ (restored (regs_at m.stack)).regs r
restores word_at below m r =
    elim r
      as (λ k.
        (iretq (drop 2 (drop 1 (run word_at below exit m)))).regs k
        ≡ (restored (regs_at m.stack)).regs k) [ Reg.cr0 ↦ refl | _ ↦ refl ]

module _ (word_at below : ℕ → ℕ) (cpu_exception : CpuRegs → Answer) where
  -- For every vector, with an error code or without, every state and every handler: the handler is
  -- given the struct `saved_regs`, and where its status has no sign and it keeps the return address,
  -- the state behind the exception is that of its struct; with a sign
  -- the entry comes to its own `ud2`, which is exception 0x06 again.
  pub exc_handler-ended :
      (code : Bool) (vec_hex return_to : ℕ) (m : Machine)
      → exc_handler word_at below cpu_exception code vec_hex return_to m
        ≡ ended return_to (cpu_exception (saved_regs word_at below code vec_hex return_to m))
  unfolding exc_handler
  exc_handler-ended true vec_hex return_to m =
      let answer = cpu_exception (saved_regs word_at below true vec_hex return_to m) in
      with_regs return_to answer _ (
        restores word_at below
          (behind_call answer (run word_at below entry (push return_to (push vec_hex (m))))))
  exc_handler-ended false vec_hex return_to m =
      let answer = cpu_exception (saved_regs word_at below false vec_hex return_to m) in
      with_regs return_to answer _ (
        restores word_at below
          (behind_call answer (run word_at below entry (push return_to (push vec_hex (push 0 m))))))

-- Which register a selector's word is restored to.
abbrev pub swapped : Reg → Reg
swapped r = elim r [
  | Reg.cr0 ↦ Reg.cr0
  | Reg.ds ↦ Reg.gs
  | Reg.es ↦ Reg.fs
  | Reg.fs ↦ Reg.es
  | Reg.gs ↦ Reg.ds
  | other ↦ other
]

-- What a register holds behind an exception that the handler lets go on.
abbrev pub kept : (code : Bool) → Machine → Reg → ℕ
kept code m r = elim r [
  | Reg.rsp ↦ m.stack (3 + code_words code)
  | other ↦ if is_selector other then m.regs (swapped other) % 2 ^ 16 else m.regs other
]

abbrev pub skipping : (status next_rip : CpuRegs → ℕ) → CpuRegs → Answer
skipping status next_rip f = record {
  status = status f;
  cpu_regs = record f { orig_rip = next_rip f };
}

selector_kept : (below s : ℕ) → selector_word below s % 2 ^ 16 ≡ s % 2 ^ 16
selector_kept below s = omega arith

restored-kept :
    (word_at below : ℕ → ℕ) (code : Bool) (vec_hex return_to : ℕ) (m : Machine) (q : Reg)
    → (restored (saved_regs word_at below code vec_hex return_to m)).regs q ≡ kept code m q
restored-kept word_at below code vec_hex return_to m q =
    elim q
      as (λ k.
        (restored (saved_regs word_at below code vec_hex return_to m)).regs k ≡ kept code m k) [
          | Reg.ds ↦ selector_kept (below 0) (m.regs Reg.gs)
          | Reg.es ↦ selector_kept (below 1) (m.regs Reg.fs)
          | Reg.fs ↦ selector_kept (below 2) (m.regs Reg.es)
          | Reg.gs ↦ selector_kept (below 3) (m.regs Reg.ds)
          | _ ↦ refl
        ]

-- Let the handler change no word but that of the instruction pointer, and return a status without a
-- sign. Then the exception ends behind its `iretq`, at that instruction, with the code selector, the
-- flags, the stack pointer and the stack selector of the words of the processor, and each other
-- register as before, but DS exchanged with GS and ES with FS.
pub exc_handler-kept :
    (word_at below : ℕ → ℕ) (status next_rip : CpuRegs → ℕ)
    → ((f : CpuRegs) → status f < 2 ^ 63)
    → (code : Bool) (vec_hex return_to : ℕ) (m : Machine)
    → let from = code_words code in
      (r : Resumed) × (exc_handler word_at below (skipping status next_rip) code vec_hex return_to m
        ≡ resumed r)
      × ((q : Reg) → r.regs q ≡ kept code m q)
      × (r.rip ≡ next_rip (saved_regs word_at below code vec_hex return_to m))
      × (r.cs ≡ m.stack (1 + from))
      × (r.rflags ≡ m.stack (2 + from))
      × (r.ss ≡ m.stack (4 + from))
exc_handler-kept word_at below status next_rip going code vec_hex return_to m =
    let f = saved_regs word_at below code vec_hex return_to m in
    (
      restored (skipping status next_rip f).cpu_regs,
      exc_handler-ended word_at below (skipping status next_rip) code vec_hex return_to m
          ∙ rw (lt→ltb (status f) (2 ^ 63) (going f), ==_refl return_to) refl,
      restored-kept word_at below code vec_hex return_to m,
      refl,
      refl,
      refl,
      refl,
    )
