-- ===== src/Clear/Regs.antt =====
-- struct crc_cpu_regs of cleardef.h: what the exception entry saves, in the order of its fields.
use clearram.Base.{ℕ, List, [], ◌∷◌}

pub record CpuRegs : Type 0 where
  pub cr0 : ℕ
  pub cr2 : ℕ
  pub cr3 : ℕ
  pub cr4 : ℕ
  pub ds : ℕ
  pub es : ℕ
  pub fs : ℕ
  pub gs : ℕ
  pub rax : ℕ
  pub rbx : ℕ
  pub rcx : ℕ
  pub rdx : ℕ
  pub rsi : ℕ
  pub rdi : ℕ
  pub rbp : ℕ
  pub rsp : ℕ
  pub r8 : ℕ
  pub r9 : ℕ
  pub r10 : ℕ
  pub r11 : ℕ
  pub r12 : ℕ
  pub r13 : ℕ
  pub r14 : ℕ
  pub r15 : ℕ
  pub unused0 : ℕ
  pub vecno : ℕ
  pub errno : ℕ
  pub orig_rip : ℕ
  pub orig_cs : ℕ
  pub orig_cflags : ℕ
  pub orig_ss : ℕ
  pub unused1 : ℕ

-- The struct read as an array of words.
abbrev pub reg_words : CpuRegs → List ℕ
reg_words r =
    r.cr0 ∷ r.cr2 ∷ r.cr3 ∷ r.cr4 ∷ r.ds ∷ r.es ∷ r.fs ∷ r.gs ∷ r.rax ∷ r.rbx ∷ r.rcx ∷ r.rdx
    ∷ r.rsi ∷ r.rdi ∷ r.rbp ∷ r.rsp ∷ r.r8 ∷ r.r9 ∷ r.r10 ∷ r.r11 ∷ r.r12 ∷ r.r13 ∷ r.r14 ∷ r.r15
    ∷ r.unused0 ∷ r.vecno ∷ r.errno ∷ r.orig_rip ∷ r.orig_cs ∷ r.orig_cflags ∷ r.orig_ss ∷ r.unused1
    ∷ []

-- Every register zero.
abbrev pub no_regs : CpuRegs
no_regs = record {
  cr0 = 0;
  cr2 = 0;
  cr3 = 0;
  cr4 = 0;
  ds = 0;
  es = 0;
  fs = 0;
  gs = 0;
  rax = 0;
  rbx = 0;
  rcx = 0;
  rdx = 0;
  rsi = 0;
  rdi = 0;
  rbp = 0;
  rsp = 0;
  r8 = 0;
  r9 = 0;
  r10 = 0;
  r11 = 0;
  r12 = 0;
  r13 = 0;
  r14 = 0;
  r15 = 0;
  unused0 = 0;
  vecno = 0;
  errno = 0;
  orig_rip = 0;
  orig_cs = 0;
  orig_cflags = 0;
  orig_ss = 0;
  unused1 = 0;
}
