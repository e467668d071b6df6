-- ===== src/Outcome/Display.antt =====
-- The text of an error: `impl Display for YaoiError` of src/error.rs. A text is its code points.
use Prim.Native.Char.{code}
use Prim.Native.String.{String}
use yaoi.Base.{
  ℕ, ◌==◌, ◌≡◌, refl, Bool, true, false, ◌&&◌, if◌then◌else◌, Option, none, some, List, [], ◌∷◌,
  ◌++◌,
}
use yaoi.Crates.{CrateTypes}
use yaoi.Outcome.{
  YaoiError, std_io, bearer, bearer2, bug, io_uring, huge_tlb_already_set, huge_tlb,
  bp_need_buffers, limit_huge_tlb_u16, huge_tlb_req_fixed_id, ring_buf,
}

-- `String` has its own `[]` and `∷`.
abbrev pub codes : String → List ℕ
codes String.[] = []
codes (String.◌∷◌ c s) = code c ∷ codes s

-- The texts of the errors of other crates.
pub record Texts (ty : CrateTypes) : Type 0 where
  pub os_error : ℕ → List ℕ
  pub bearer_error : ty.BearerError → List ℕ
  pub huge_page_error : ty.HugePageError → List ℕ
  pub ring_buf_error : ty.RingBufError → List ℕ

module _ {ty : CrateTypes} (texts : Texts ty) where
  -- The two places that make a `bug` give it the same text.
  pub fmt : YaoiError ty → List ℕ
  fmt (std_io e) = codes "StdIo: " ++ texts.os_error e
  fmt (bearer e) = codes "UringBearer: " ++ texts.bearer_error e
  fmt (bearer2 e) = codes "UringBearer: " ++ texts.bearer_error e
  fmt bug = codes "Yaoi Bug: " ++ codes "Type error. Expected EntConnected?"
  fmt (io_uring e) = codes "Yaoi IoUring: " ++ texts.os_error e
  fmt huge_tlb_already_set = codes "HugeTLB already set once."
  fmt (huge_tlb e) = codes "HugeTlb error: " ++ texts.huge_page_error e
  fmt bp_need_buffers = codes "Need buffers to run blueprints."
  fmt limit_huge_tlb_u16 =
      codes "Streaming incremental HugeTLB buffers can be created only on u16 TcpSteam Ids."
  fmt huge_tlb_req_fixed_id =
      codes "Streaming incremental HugeTLB buffers can be only created on fixed id TcpStreams."
  fmt (ring_buf e) = codes "RingBuf: " ++ texts.ring_buf_error e

-- The constructors of an error, with the two of the bearer as one.
pub data ErrorKind : Type 0 where
  by_os by_bearer by_bug by_io_uring by_huge_tlb by_ring_buf : ErrorKind
  set_twice no_buffers over_u16 not_fixed : ErrorKind

abbrev pub kind : {ty : CrateTypes} → YaoiError ty → ErrorKind
kind (std_io _) = by_os
kind (bearer _) = by_bearer
kind (bearer2 _) = by_bearer
kind bug = by_bug
kind (io_uring _) = by_io_uring
kind huge_tlb_already_set = set_twice
kind (huge_tlb _) = by_huge_tlb
kind bp_need_buffers = no_buffers
kind limit_huge_tlb_u16 = over_u16
kind huge_tlb_req_fixed_id = not_fixed
kind (ring_buf _) = by_ring_buf

abbrev starts : List ℕ → List ℕ → Bool
starts [] s = true
starts (p ∷ ps) [] = false
starts (p ∷ ps) (x ∷ xs) = (p == x) && starts ps xs

-- How a reader tells an error from its text.
abbrev pub kind_of_text : List ℕ → Option ErrorKind
kind_of_text s =
    if starts (codes "StdIo: ") s
    then some by_os
    else if starts (codes "UringBearer: ") s
    then some by_bearer
    else if starts (codes "Yaoi Bug: ") s
    then some by_bug
    else if starts (codes "Yaoi IoUring: ") s
    then some by_io_uring
    else if starts (codes "HugeTLB already") s
    then some set_twice
    else if starts (codes "HugeTlb error: ") s
    then some by_huge_tlb
    else if starts (codes "Need buffers") s
    then some no_buffers
    else if starts (codes "Streaming incremental HugeTLB buffers can be created") s
    then some over_u16
    else if starts (codes "Streaming incremental HugeTLB buffers can be only") s
    then some not_fixed
    else if starts (codes "RingBuf: ") s
    then some by_ring_buf
    else none

-- The text of an error tells its kind, whatever the texts of the errors inside it are; only the two
-- kinds of the bearer have one text.
pub kind_of_text-fmt :
    {ty : CrateTypes} (texts : Texts ty) (e : YaoiError ty)
    → kind_of_text (fmt texts e) ≡ some (kind e)
unfolding fmt
kind_of_text-fmt texts (std_io e) = refl
kind_of_text-fmt texts (bearer e) = refl
kind_of_text-fmt texts (bearer2 e) = refl
kind_of_text-fmt texts bug = refl
kind_of_text-fmt texts (io_uring e) = refl
kind_of_text-fmt texts huge_tlb_already_set = refl
kind_of_text-fmt texts (huge_tlb e) = refl
kind_of_text-fmt texts bp_need_buffers = refl
kind_of_text-fmt texts limit_huge_tlb_u16 = refl
kind_of_text-fmt texts huge_tlb_req_fixed_id = refl
kind_of_text-fmt texts (ring_buf e) = refl
