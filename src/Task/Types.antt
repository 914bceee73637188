-- ===== src/Task/Types.antt =====
-- `TaskType_t` and `CFidTask` of src/taskschedule.h.
use fidinventor.Base.{[], ℤ, pos, negsuc}
use fidinventor.Base.Text.{Bytes}

pub data TaskType : Type 0 where
  task_null task_blockgensis task_blockinfo task_blockheight task_block task_transaction : TaskType
  task_block_or_trans task_callrpc task_callsql task_all : TaskType

pub record Task : Type 0 where
  pub height : ℤ
  pub bktime : ℤ
  pub type : TaskType
  pub command : Bytes
  pub sequence : ℤ
  pub status : ℤ
  pub message : Bytes

-- `CFidTask()`; the block time is what the storage held.
unfoldable pub empty_task : ℤ → Task
empty_task storage = record {
  height = negsuc 0;
  bktime = storage;
  type = TaskType.task_null;
  command = [];
  sequence = negsuc 0;
  status = pos 0;
  message = [];
}

-- `CFidTask(type, command)`
unfoldable pub new_task : ℤ → TaskType → Bytes → Task
new_task storage type command = record {
  height = negsuc 0;
  bktime = storage;
  type = type;
  command = command;
  sequence = negsuc 0;
  status = pos 0;
  message = [];
}
