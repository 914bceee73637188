-- ===== src/Chain/Block.antt =====
-- `CFidBlock` of src/block.h and src/block.cpp.
use fidinventor.Base.{ℕ, ◌-◌, ◌^◌, Bool, List, [], ℤ, pos, not}
use fidinventor.Base.Text.{Bytes, is_empty}

pub record Block (F : Type 0) : Type 0 where
  pub hash : Bytes
  pub confirmations : ℕ
  pub size : ℤ
  pub height : ℕ
  pub version : ℤ
  pub merkleroot : Bytes
  pub mint : F
  pub time : ℤ
  pub nonce : ℤ
  pub bits : Bytes
  pub difficulty : F
  pub blocktrust : Bytes
  pub chaintrust : Bytes
  pub previousblockhash : Bytes
  pub nextblockhash : Bytes
  pub flags : Bytes
  pub proofhash : Bytes
  pub entropybit : ℤ
  pub modifier : Bytes
  pub tx : Bytes
  pub vtx : List Bytes
  pub signature : Bytes

module _ {F : Type 0} where
  -- `CFidBlock()`: the strings are empty, and the numbers are what the storage held.
  unfoldable pub new_block : Block F → Block F
  new_block storage = record storage {
    hash = [];
    merkleroot = [];
    bits = [];
    blocktrust = [];
    chaintrust = [];
    previousblockhash = [];
    nextblockhash = [];
    flags = [];
    proofhash = [];
    modifier = [];
    tx = [];
    vtx = [];
    signature = [];
  }

  -- `checkValidy()`, as a test.
  unfoldable pub block_valid : Block F → Bool
  block_valid b = not (is_empty b.hash)

  -- `clear()`; the height -1 is the largest number of 64 bits.
  unfoldable pub clear_block : F → Block F → Block F
  clear_block zero b = record {
    hash = [];
    confirmations = 0;
    size = pos 0;
    height = 2 ^ 64 - 1;
    version = pos 0;
    merkleroot = [];
    mint = zero;
    time = pos 0;
    nonce = pos 0;
    bits = [];
    difficulty = zero;
    blocktrust = [];
    chaintrust = [];
    previousblockhash = [];
    nextblockhash = [];
    flags = [];
    proofhash = [];
    entropybit = pos 0;
    modifier = [];
    tx = [];
    vtx = [];
    signature = [];
  }
