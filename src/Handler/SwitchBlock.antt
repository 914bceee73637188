-- ===== src/Handler/SwitchBlock.antt =====
-- `CFidHandler::switchBk`: a block out of the reply to `getblockbynumber`.
use fidinventor.Base.{true, List, [], ◌∷◌}
use fidinventor.Base.Text.{Bytes, codes}
use fidinventor.Base.Result.{Result, ok, ◌>>=◌}
use fidinventor.Json.Value.{
  Value, str, real, arr, obj, Fields, JsonText, get_str, get_int, get_int64, get_uint64,
}
use fidinventor.Json.Object.{find_value, elements}
use fidinventor.Chain.Block.{Block}

module _ {F : Type 0} where
  -- A string replaces the old value, anything else leaves it.
  abbrev pub str_or : Value F → Bytes → Bytes
  str_or (str s) old = s
  str_or v old = old

  abbrev pub real_or : Value F → F → F
  real_or (real x) old = x
  real_or v old = old

  -- The numbers of a block: each must be there with its type.
  unfoldable pub switch_numbers : Fields F → Block F → Result (Block F)
  unfolding find_value get_int get_int64 get_uint64
  switch_numbers o bk = do
    confirmations ← get_uint64 (find_value o (codes "confirmations"))
    size ← get_int (find_value o (codes "size"))
    height ← get_uint64 (find_value o (codes "height"))
    version ← get_int (find_value o (codes "version"))
    time ← get_int64 (find_value o (codes "time"))
    nonce ← get_int (find_value o (codes "nonce"))
    entropybit ← get_int (find_value o (codes "entropybit"))
    ok (record bk {
      confirmations = confirmations;
      size = size;
      height = height;
      version = version;
      time = time;
      nonce = nonce;
      entropybit = entropybit;
    })

  -- The optional parts up to `flags`.
  unfoldable pub switch_strings : Fields F → Block F → Block F
  unfolding find_value
  switch_strings o bk = record bk {
    merkleroot = str_or (find_value o (codes "merkleroot")) bk.merkleroot;
    mint = real_or (find_value o (codes "mint")) bk.mint;
    bits = str_or (find_value o (codes "bits")) bk.bits;
    difficulty = real_or (find_value o (codes "difficulty")) bk.difficulty;
    blocktrust = str_or (find_value o (codes "blocktrust")) bk.blocktrust;
    chaintrust = str_or (find_value o (codes "chaintrust")) bk.chaintrust;
    previousblockhash = str_or (find_value o (codes "previousblockhash")) bk.previousblockhash;
    nextblockhash = str_or (find_value o (codes "nextblockhash")) bk.nextblockhash;
    flags = str_or (find_value o (codes "flags")) bk.flags;
  }

  -- The test before `proofhash` is on the type of `flags`.
  unfoldable pub switch_proofhash : Value F → Value F → Bytes → Result Bytes
  unfolding get_str
  switch_proofhash (str s) proofhash old = get_str proofhash
  switch_proofhash flags proofhash old = ok old

  -- `array[i].get_str()` for each element.
  unfoldable pub all_strings : List (Value F) → Result (List Bytes)
  unfolding get_str
  all_strings [] = ok []
  all_strings (v ∷ vs) = do s ← get_str v; ss ← all_strings vs; ok (s ∷ ss)

module _ {F : Type 0} (text : JsonText F) where
  open text use {write_string}

  -- The part for `tx`: the text of the array and the ids.
  unfoldable pub switch_ids : Value F → Block F → Result (List Bytes × Block F)
  unfolding all_strings
  switch_ids (arr xs) bk = do
    ids ← all_strings (elements xs)
    ok (ids, record bk { tx = write_string (arr xs) true; vtx = ids })
  switch_ids v bk = ok ([], bk)

  unfoldable pub switch_block_object : Fields F → Block F → Result (List Bytes × Block F)
  unfolding find_value switch_numbers switch_strings switch_proofhash switch_ids
  switch_block_object o bk = do
    let named = record bk { hash = str_or (find_value o (codes "hash")) bk.hash }
    numbered ← switch_numbers o named
    let described = switch_strings o numbered
    proofhash ←
        switch_proofhash (find_value o (codes "flags")) (find_value o (codes "proofhash"))
          described.proofhash
    switch_ids (find_value o (codes "tx")) (record described {
      proofhash = proofhash;
      modifier = str_or (find_value o (codes "modifier")) described.modifier;
    })

  abbrev pub switch_block_result : Value F → Block F → Result (List Bytes × Block F)
  switch_block_result (obj o) bk = switch_block_object o bk
  switch_block_result v bk = ok ([], bk)

  -- `switchBk(task, bk)` on the reply of the task: the transaction ids, and the block.
  unfoldable pub switch_block : Fields F → Block F → Result (List Bytes × Block F)
  unfolding find_value switch_block_object
  switch_block reply bk = switch_block_result (find_value reply (codes "result")) bk
