-- ===== src/Fme/Mgr/Tests.antt =====
-- drivers/fpga/dfl-fme-mgr.c: an engine with a queue of four entries that empties in time.
use linux_dfl_backport.Base.{
  ℕ, ◌+◌, ◌-◌, ◌%◌, ◌≡◌, refl, false, List, [], ◌∷◌, ◌++◌, none, some, ◌==◌, leb, arith,
  if◌then◌else◌, Result, err,
}
use linux_dfl_backport.Fpga.Mgr.Defs.{MgrState, Mgr, Kernel}
use linux_dfl_backport.Fpga.Mgr.Load.{fpga_mgr_load}
use linux_dfl_backport.Fme.Mgr.{Io, Priv, fme_pr_data, fme_mgr_ops, fme_mgr_status, fme_mgr_write}
use linux_dfl_backport.Fme.Mgr.Sent.{Engine, IsSent, data_words, write-IsSent}
use linux_dfl_backport.Fme.Mgr.Clean.{EndsClean, load-status}

-- The engine: the words that came, the free entries, and the words for which there was none.
record Queue : Type 0 where
  got : List ℕ
  free : ℕ
  overruns : ℕ

abbrev data_in : ℕ → Queue → Queue
data_in v q = record {
  got = q.got ++ v ∷ [];
  free = q.free - 1;
  overruns = if leb q.free 1 then q.overruns + 1 else q.overruns;
}

-- The status shows the free entries; there is no error.
abbrev io : Io Queue
io = record {
  readq = λ addr q. (if addr == 0x10 then q.free % 512 else 0, q);
  writeq = λ v addr q. if addr == fme_pr_data then data_in v q else q;
  readq_poll_timeout = λ addr cond q. ((0, q), false);
  udelay = λ q. record q { free = q.free + 1 };
}

engine : Engine io
engine = record {
  got = λ q. q.got;
  credits = λ q. q.free;
  overruns = λ q. q.overruns;
  data_got = λ v q. refl;
  data_credits = λ v q. omega arith;
  data_overruns = λ v q h. ground (arith, h);
  ctrl_kept = λ v q. (refl, refl);
  read_kept = λ addr q. (refl, refl);
  delay_kept = λ q. (refl, refl);
  status_credits = λ q. omega arith;
}

abbrev start : Priv Queue
start = record { dev = record { got = []; free = 2; overruns = 0 }; pr_error = 0 }

abbrev six_bytes : List ℕ
six_bytes = 1 ∷ 2 ∷ 3 ∷ 4 ∷ 5 ∷ 6 ∷ []

abbrev sent : Priv Queue
sent = record start { dev = record { got = 0x04030201 ∷ 0x0605 ∷ []; free = 1; overruns = 0 } }

write_run : fme_mgr_write io six_bytes start ≡ (0, sent)
unfolding fme_mgr_write
write_run = refl

write-IsSent_example :
    let (ret, priv) = fme_mgr_write io six_bytes start in
    IsSent engine start.dev (data_words 2 six_bytes) (ret, priv.dev)
write-IsSent_example = write-IsSent engine six_bytes start

-- The manager of the engine, and a kernel that is not asked.
abbrev mgr : Mgr (Priv Queue)
mgr = record {
  state = MgrState.unknown;
  info = record { header_size = 0; data_size = 0 };
  drv = start;
}

abbrev kernel : Kernel
kernel = record {
  krealloc = λ size. false;
  sg_miter_skip = λ chunks n. none;
  sg_pcopy_to_buffer = λ chunks len skip. [];
}

abbrev no_pages : List ℕ → Result (List (List ℕ))
no_pages buf = err 12

abbrev loaded : Mgr (Priv Queue)
loaded = record mgr { state = MgrState.operating; drv = sent }

load_run :
    fpga_mgr_load (fme_mgr_ops io 1 3) 1 kernel no_pages mgr none six_bytes none ≡ some (loaded, 0)
unfolding fpga_mgr_load fme_mgr_ops
load_run = refl

load-status_example : EndsClean io sent × (fme_mgr_status sent ≡ 0)
load-status_example = load-status io 1 3 kernel no_pages 1 mgr none six_bytes none tt load_run
