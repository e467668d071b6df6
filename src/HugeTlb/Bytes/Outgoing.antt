-- ===== src/HugeTlb/Bytes/Outgoing.antt =====
-- The output of a stream as bytes: what an orbit writes into its part of the outgoing page and sets the
-- length of, and what the sends then take from there.
use yaoi.Crates.{Crates, CrateTypes}
use yaoi.Outcome.{Outcome, ok, err, panic}
use yaoi.HugeTlb.Left.{Slice, InBuffer}

abbrev slice_or : {ty : CrateTypes} → Slice → Outcome ty (InBuffer × Slice) → Slice
slice_or o (ok (b, o')) = o'
slice_or o (err e) = o
slice_or o (panic p) = o
