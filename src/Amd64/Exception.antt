-- ===== src/Amd64/Exception.antt =====
-- cr_amd64_exception() of subr_amd64.c and the wrappers CRA_DECL_EXC_HANDLER of amd64def.h: the
-- instructions that save the registers in a struct crc_cpu_regs, call the handler, and restore them.
-- The stack is the words from the stack pointer on. cr_clear_cpu_exception() is a parameter.
pub mod Restores
mod Tests
use clearram.Base.{
  ℕ, Bool, List, [], ◌∷◌, ◌+◌, ◌-◌, ◌*◌, ◌/◌, ◌%◌, ◌^◌, ◌==◌, ltb, add64, sub64, if◌then◌else◌,
  ◌&&◌,
}
use clearram.Clear.Regs.{CpuRegs, reg_words}

pub data Reg : Type 0 where
  cr0 : Reg
  cr2 : Reg
  cr3 : Reg
  cr4 : Reg
  ds : Reg
  es : Reg
  fs : Reg
  gs : Reg
  rax : Reg
  rbx : Reg
  rcx : Reg
  rdx : Reg
  rsi : Reg
  rdi : Reg
  rbp : Reg
  rsp : Reg
  r8 : Reg
  r9 : Reg
  r10 : Reg
  r11 : Reg
  r12 : Reg
  r13 : Reg
  r14 : Reg
  r15 : Reg

abbrev pub number : Reg → ℕ
number r = elim r [
  | cr0 ↦ 0
  | cr2 ↦ 1
  | cr3 ↦ 2
  | cr4 ↦ 3
  | ds ↦ 4
  | es ↦ 5
  | fs ↦ 6
  | gs ↦ 7
  | rax ↦ 8
  | rbx ↦ 9
  | rcx ↦ 10
  | rdx ↦ 11
  | rsi ↦ 12
  | rdi ↦ 13
  | rbp ↦ 14
  | rsp ↦ 15
  | r8 ↦ 16
  | r9 ↦ 17
  | r10 ↦ 18
  | r11 ↦ 19
  | r12 ↦ 20
  | r13 ↦ 21
  | r14 ↦ 22
  | r15 ↦ 23
]

-- A selector has 16 bits.
abbrev pub is_selector : Reg → Bool
is_selector r = ltb 3 (number r) && ltb (number r) 8

pub record Machine : Type 0 where
  pub regs : Reg → ℕ
  pub stack : ℕ → ℕ

abbrev pub set_reg : Reg → ℕ → Machine → Machine
set_reg r v m = record m {
  regs = λ q. if number q == number r then (if is_selector r then v % 2 ^ 16 else v) else m.regs q;
}

-- The instructions with the source before the destination. `reserve` and `release` are `subq` and
-- `addq` on %rsp, in words; `addq_at` adds the word at an address.
pub data Instr : Type 0 where
  push_word : ℕ → Instr
  pushq : Reg → Instr
  popq : Reg → Instr
  movq : Reg → Reg → Instr
  movw : Reg → (offset : ℕ) → Instr
  addq_at : (address : ℕ) → Reg → Instr
  reserve : ℕ → Instr
  release : ℕ → Instr

abbrev pub on_top : ℕ → (ℕ → ℕ) → ℕ → ℕ
on_top v words i = if i == 0 then v else words (i - 1)

abbrev pub push : ℕ → Machine → Machine
push v m = let m' = set_reg rsp (sub64 (m.regs rsp) 8) m in record m' { stack = on_top v m.stack }

abbrev pub drop : ℕ → Machine → Machine
drop n m =
    let m' = set_reg rsp (add64 (m.regs rsp) (n * 8)) m in
    record m' { stack = λ i. m.stack (i + n) }

-- With the word at each address of the memory, and the words below the stack pointer that `reserve`
-- uncovers.
module _ (word_at below : ℕ → ℕ) where
  abbrev pub execute : Instr → Machine → Machine
  execute (push_word v) m = push v m
  execute (pushq r) m = push (m.regs r) m
  execute (popq r) m = set_reg r (m.stack 0) (drop 1 m)
  execute (movq r r') m = set_reg r' (m.regs r) m
  execute (movw r offset) m = record m {
    stack = λ i.
        if i == (offset / 8) then m.stack i / 2 ^ 16 * 2 ^ 16 + m.regs r % 2 ^ 16 else m.stack i;
  }
  execute (addq_at address r) m = set_reg r (add64 (m.regs r) (word_at address)) m
  execute (reserve n) m =
      let m' = set_reg rsp (sub64 (m.regs rsp) (n * 8)) m in
      record m' { stack = λ i. if ltb i n then below i else m.stack (i - n) }
  execute (release n) m = drop n m

  abbrev pub run : List Instr → Machine → Machine
  run [] m = m
  run (i ∷ is) m = run is (execute i m)

-- From `cr_amd64_exception:` to the last word of the struct.
abbrev pub entry : List Instr
entry =
    pushq r15
    ∷ pushq r14
    ∷ pushq r13
    ∷ pushq r12
    ∷ pushq r11
    ∷ pushq r10
    ∷ pushq r9
    ∷ pushq r8
    ∷ movq rsp r8
    ∷ addq_at 128 r8
    ∷ pushq r8
    ∷ pushq rbp
    ∷ pushq rdi
    ∷ pushq rsi
    ∷ pushq rdx
    ∷ pushq rcx
    ∷ pushq rbx
    ∷ pushq rax
    ∷ reserve 4
    ∷ movw gs 0x0
    ∷ movw fs 0x8
    ∷ movw es 0x10
    ∷ movw ds 0x18
    ∷ movq cr4 rax
    ∷ pushq rax
    ∷ movq cr3 rax
    ∷ pushq rax
    ∷ movq cr2 rax
    ∷ pushq rax
    ∷ movq cr0 rax
    ∷ pushq rax
    ∷ []

-- Behind `movq %rbx, %rsp`, up to `ret`.
abbrev pub exit : List Instr
exit =
    popq rax
    ∷ movq rax cr0
    ∷ popq rax
    ∷ movq rax cr2
    ∷ popq rax
    ∷ movq rax cr3
    ∷ popq rax
    ∷ movq rax cr4
    ∷ popq rax
    ∷ movq rax ds
    ∷ popq rax
    ∷ movq rax es
    ∷ popq rax
    ∷ movq rax fs
    ∷ popq rax
    ∷ movq rax gs
    ∷ popq rax
    ∷ popq rbx
    ∷ popq rcx
    ∷ popq rdx
    ∷ popq rsi
    ∷ popq rdi
    ∷ popq rbp
    ∷ release 1
    ∷ popq r8
    ∷ popq r9
    ∷ popq r10
    ∷ popq r11
    ∷ popq r12
    ∷ popq r13
    ∷ popq r14
    ∷ popq r15
    ∷ []

-- The words of the stack as a struct crc_cpu_regs.
abbrev pub regs_at : (ℕ → ℕ) → CpuRegs
regs_at w = record {
  cr0 = w 0;
  cr2 = w 1;
  cr3 = w 2;
  cr4 = w 3;
  ds = w 4;
  es = w 5;
  fs = w 6;
  gs = w 7;
  rax = w 8;
  rbx = w 9;
  rcx = w 10;
  rdx = w 11;
  rsi = w 12;
  rdi = w 13;
  rbp = w 14;
  rsp = w 15;
  r8 = w 16;
  r9 = w 17;
  r10 = w 18;
  r11 = w 19;
  r12 = w 20;
  r13 = w 21;
  r14 = w 22;
  r15 = w 23;
  unused0 = w 24;
  vecno = w 25;
  errno = w 26;
  orig_rip = w 27;
  orig_cs = w 28;
  orig_cflags = w 29;
  orig_ss = w 30;
  unused1 = w 31;
}

abbrev pub put_words : List ℕ → (ℕ → ℕ) → ℕ → ℕ
put_words [] w = w
put_words (v ∷ vs) w = on_top v (put_words vs w)

-- What the handler returns in %rax, and the struct as it leaves it.
pub record Answer : Type 0 where
  pub status : ℕ
  pub cpu_regs : CpuRegs

-- The state behind `iretq`; or that the entry has come to its own `ud2` behind `3:` (without DEBUG), with
-- the status in %rax and the struct at %rbx; or that `ret` does not lead back. The `ud2` is exception
-- 0x06 itself, and comes to the same entry again as long as the program's IDT is loaded.
pub record Resumed : Type 0 where
  pub regs : Reg → ℕ
  pub rip : ℕ
  pub cs : ℕ
  pub rflags : ℕ
  pub ss : ℕ

pub data Ended : Type 0 where
  resumed : Resumed → Ended
  at_ud2 : Answer → Ended
  lost : Ended

abbrev pub iretq : Machine → Resumed
iretq m = record {
  regs = (set_reg rsp (m.stack 3) m).regs;
  rip = m.stack 0;
  cs = m.stack 1;
  rflags = m.stack 2;
  ss = m.stack 4;
}

-- The state behind the call of the handler, at the struct: what the call puts below it is gone with
-- `movq %rbx, %rsp`.
abbrev pub behind_call : Answer → Machine → Machine
behind_call answer saved = record saved {
  stack = put_words (reg_words answer.cpu_regs) (λ i. saved.stack (i + 32));
}

module _ (word_at below : ℕ → ℕ) (cpu_exception : CpuRegs → Answer) where
  -- The return of the handler is judged by the sign of %rax.
  abbrev pub exception : (return_to : ℕ) → (Machine → Ended) → Machine → Ended
  exception return_to next m =
      let saved = run word_at below entry m in
      let answer = cpu_exception (regs_at saved.stack) in
      let back = run word_at below exit (behind_call answer saved) in
      if ltb answer.status (2 ^ 63)
      then (if back.stack 0 == return_to then next (drop 1 back) else lost)
      else at_ud2 answer

  -- CRA_DECL_EXC_HANDLER and CRA_DECL_EXC_HANDLER_NOCODE: `callq` pushes the address behind it.
  unfoldable pub exc_handler : (code : Bool) (vec_hex return_to : ℕ) → Machine → Ended
  exc_handler code vec_hex return_to m =
      let m0 = if code then m else push 0x00 m in
      exception return_to (λ n. resumed (iretq (drop 2 n))) (push return_to (push vec_hex m0))
