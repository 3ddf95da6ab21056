-- ===== src/Qdisc/Tests.antt =====
-- A kernel with one device, whose root is an etf discipline or not (src/reac_qdisc.c).
use reac_pw.Prelude.{Bool, true, false, some, if◌then◌else◌}
use reac_pw.Prelude.Bytes.{codes}
use reac_pw.Qdisc.{Kernel, Qdisc, present, absent, done, named}

abbrev one_device : Kernel
one_device = record {
  World = Bool;
  index_of_name = λ k name. some 3;
  etf_state = λ k idx. if k then present else absent;
  remove_etf = λ k idx. (false, done);
  install_etf = λ k idx. (true, done);
}

abbrev installed_there : Qdisc
installed_there = record (named (codes "eth0")) { ifindex = 3; installed = true }
