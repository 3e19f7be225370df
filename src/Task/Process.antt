-- ===== src/Task/Process.antt =====
-- kernel/src/task/process.rs, context.rs and image.rs. `V` and `virt_addr` stand for `VirtAddr` and
-- `VirtAddr::new` of the x86_64 crate.
use aetheros_rust_project.Prelude.{ℕ, Option, none, some}
use aetheros_rust_project.Prelude.Text.{Text, codes}
use aetheros_rust_project.Memory.AddressSpace
use aetheros_rust_project.Memory.AddressSpace.{AddressSpace}

pub record TaskContext : Type 0 where
  pub id : ℕ
  pub timeslice_ticks : ℕ

pub record UserProgramImage : Type 0 where
  pub name : Text
  pub entry_point : ℕ
  pub stack_top : ℕ
  pub image_size : ℕ

pub data ProcessState : Type 0 where
  ready running idle : ProcessState

-- `ProcessState::label`
unfoldable pub state_label : ProcessState → Text
state_label ready = codes "ready"
state_label running = codes "running"
state_label idle = codes "idle"

pub data ExecutionMode : Type 0 where
  kernel user : ExecutionMode

-- `ExecutionMode::label`
unfoldable pub mode_label : ExecutionMode → Text
mode_label kernel = codes "kernel"
mode_label user = codes "user"

pub record Process (V : Type 0) : Type 0 where
  pub id : ℕ
  pub name : Text
  pub context : TaskContext
  pub state : ProcessState
  pub execution_mode : ExecutionMode
  pub address_space : AddressSpace V
  pub image : Option UserProgramImage

module _ {V : Type 0} (virt_addr : ℕ → V) where
  -- `Process::new`
  unfoldable pub new : ℕ → Text → Process V
  unfolding AddressSpace.new
  new id name = record {
    id = id;
    name = name;
    context = record { id = id; timeslice_ticks = 0 };
    state = ready;
    execution_mode = kernel;
    address_space = AddressSpace.new virt_addr (virt_addr 0);
    image = none;
  }

  -- `Process::new_user_stub`
  unfoldable pub new_user_stub : ℕ → Text → UserProgramImage → ℕ → ℕ → ℕ → Process V
  unfolding AddressSpace.with_user_range
  new_user_stub id name image hhdm_offset user_range_start user_range_end = record {
    id = id;
    name = name;
    context = record { id = id; timeslice_ticks = 0 };
    state = ready;
    execution_mode = user;
    address_space =
        AddressSpace.with_user_range (virt_addr hhdm_offset) (virt_addr user_range_start)
          (virt_addr user_range_end);
    image = some image;
  }
