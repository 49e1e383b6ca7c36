-- ===== src/Memory/Buddy/Blocks.antt =====
-- Taking, adding and removing a block of any order: the one block changes, and the list and the
-- count of the order stay right.
use mini_libc.Base.{
  ℕ, zero, suc, ◌+◌, ◌-◌, ◌/◌, ◌%◌, ◌≤◌, ◌<◌, ◌≡◌, ◌≢◌, refl, true, arith, ◌==◌, if◌then◌else◌,
  ==_true, ==_false,
}
use native.Mathlib.Decide.{ℕ_discrete}
use mini_libc.Bits.{bit}
use mini_libc.Links.{Ptr, null, Links, has, erase, IsChain}
use mini_libc.Links.Unlink.{reset-bypass-IsChain}
use mini_libc.Memory.Buddy.{
  OrderState, blocks, mark_free, mark_used, mark_free_0, mark_used_0, more_avail, less_avail,
  unlink, lowest, lowest_0, take_block, take_block_0, add_block, add_block_0, remove_block,
  remove_block_0,
}
use mini_libc.Memory.Buddy.Order.{
  is_free, Marks, mark_free-Marks, mark_used-Marks, mark_free_0-Marks, mark_used_0-Marks,
}
use mini_libc.Memory.Buddy.Listed.{IsListed, more_avail-IsListed, less_avail-IsListed}

pub record Bounds (k : ℕ) : Type 0 where
  pub all : blocks k ≤ 128
  pub one_word : k ≢ 0 → blocks k ≤ 64
  pub half_word : 2 ≤ k → blocks k ≤ 32

pub blocks-Bounds : (k : ℕ) → k < 7 → Bounds k
blocks-Bounds zero h = omega arith
blocks-Bounds (suc zero) h = omega arith
blocks-Bounds (suc (suc zero)) h = omega arith
blocks-Bounds (suc (suc (suc zero))) h = omega arith
blocks-Bounds (suc (suc (suc (suc zero)))) h = omega arith
blocks-Bounds (suc (suc (suc (suc (suc zero))))) h = omega arith
blocks-Bounds (suc (suc (suc (suc (suc (suc zero)))))) h = omega arith
blocks-Bounds (suc (suc (suc (suc (suc (suc (suc k))))))) h = absurd (omega arith)

-- The change of one order: block i of st is marked v, and the list stays right.
pub record Changed (k v : ℕ) (st : Ptr) (i : ℕ) (o o' : OrderState) : Type 0 where
  pub in_range : i < blocks k
  pub marks : Marks (blocks k) v st i o o'
  pub before : is_free o st i ≡ 1 - v
  pub listed : IsListed (blocks k) o'

pub in_word_0 :
    (o : OrderState) (st : Ptr) (i : ℕ) → i < 64 → is_free o st i ≡ bit (o.bitmap 0 st) i
unfolding is_free
in_word_0 o st i lt =
    let e : i / 64 ≡ 0 = omega arith in let f : i % 64 ≡ i = omega arith in rw (e, f)

pub in_word_1 :
    (o : OrderState) (st : Ptr) (i : ℕ) → i < 64 → is_free o st (i + 64) ≡ bit (o.bitmap 1 st) i
unfolding is_free
in_word_1 o st i lt =
    let e : (i + 64) / 64 ≡ 1 = omega arith in let f : (i + 64) % 64 ≡ i = omega arith in rw (e, f)

abbrev pub add_any : ℕ → Ptr → ℕ → OrderState → OrderState
add_any k st i o = if k == 0 then add_block_0 st i o else add_block k st i o

abbrev pub remove_any : ℕ → Ptr → ℕ → OrderState → OrderState
remove_any k st i o = if k == 0 then remove_block_0 st i o else remove_block k st i o

abbrev pub lowest_any : ℕ → Ptr → OrderState → ℕ
lowest_any k st o = if k == 0 then lowest_0 st o else lowest k st o

abbrev pub take_any : ℕ → Ptr → OrderState → OrderState
take_any k st o = if k == 0 then take_block_0 st o else take_block k st o

module _ (k : ℕ) (b : Bounds k) (st : Ptr) (o : OrderState) (h : IsListed (blocks k) o) where
  add_block-Changed :
      (i : ℕ)
      → k ≢ 0
      → st ≢ null
      → i < blocks k
      → is_free o st i ≡ 0
      → Changed k 1 st i o (add_block k st i o)
  unfolding add_block more_avail is_free
  add_block-Changed i pos ne lt off =
      let m = mark_free-Marks k st i o (b.one_word pos) lt in
      record {
        in_range = lt;
        marks = m;
        before = off;
        listed =
            unfold mark_free in
            more_avail-IsListed (blocks k) b.all st i o (mark_free k st i o) lt ne m off (λ t. refl)
              refl h;
      }

  add_block_0-Changed :
      (i : ℕ)
      → k ≡ 0
      → st ≢ null
      → i < blocks k
      → is_free o st i ≡ 0
      → Changed k 1 st i o (add_block_0 st i o)
  unfolding add_block_0 more_avail is_free
  add_block_0-Changed i z ne lt off =
      let m : Marks (blocks k) 1 st i o (mark_free_0 st i o) =
        rw z (mark_free_0-Marks st i o (rw z at lt)) in
      record {
        in_range = lt;
        marks = m;
        before = off;
        listed =
            unfold mark_free_0 in
            more_avail-IsListed (blocks k) b.all st i o (mark_free_0 st i o) lt ne m off
              (λ t. ground arith) (ground arith) h;
      }

  module _ (i : ℕ) (lt : i < blocks k) (on : is_free o st i ≡ 1) (take_out : Ptr → Links → Links)
      (out : has st h.members ≡ true → IsChain (take_out st o.links) (erase st h.members)) where
    pub less_avail-Changed :
        k ≢ 0 → Changed k 0 st i o (less_avail take_out st (mark_used k st i o))
    unfolding less_avail is_free
    less_avail-Changed pos =
        let m = mark_used-Marks k st i o (b.one_word pos) lt in
        record {
          in_range = lt;
          marks = m;
          before = on;
          listed =
              unfold mark_used in
              less_avail-IsListed (blocks k) b.all st i o (mark_used k st i o) lt take_out m on
                (λ t. refl) refl h out;
        }

    pub less_avail_0-Changed :
        k ≡ 0 → Changed k 0 st i o (less_avail take_out st (mark_used_0 st i o))
    unfolding less_avail is_free
    less_avail_0-Changed z =
        let m : Marks (blocks k) 0 st i o (mark_used_0 st i o) =
          rw z (mark_used_0-Marks st i o (rw z at lt)) in
        record {
          in_range = lt;
          marks = m;
          before = on;
          listed =
              unfold mark_used_0 in
              less_avail-IsListed (blocks k) b.all st i o (mark_used_0 st i o) lt take_out m on
                (λ t. ground arith) (ground arith) h out;
        }

  pub add_any-Changed :
      (i : ℕ)
      → st ≢ null
      → i < blocks k
      → is_free o st i ≡ 0
      → Changed k 1 st i o (add_any k st i o)
  add_any-Changed i ne lt off = elim (ℕ_discrete k 0) [
    | yes z ↦ rw (==_true k 0 z) (add_block_0-Changed i z ne lt off)
    | no p ↦ rw (==_false k 0 p) (add_block-Changed i p ne lt off)
  ]

  pub remove_any-Changed :
      (i : ℕ) → i < blocks k → is_free o st i ≡ 1 → Changed k 0 st i o (remove_any k st i o)
  unfolding remove_block remove_block_0
  remove_any-Changed i lt on =
      let out = reset-bypass-IsChain st o.links h.members h.chain in
      elim (ℕ_discrete k 0) [
        | yes z ↦ rw (==_true k 0 z) (less_avail_0-Changed i lt on unlink out z)
        | no p ↦ rw (==_false k 0 p) (less_avail-Changed i lt on unlink out p)
      ]
