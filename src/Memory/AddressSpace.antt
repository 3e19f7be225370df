-- ===== src/Memory/AddressSpace.antt =====
-- kernel/src/memory/address_space.rs. `V` and `virt_addr` stand for `VirtAddr` and `VirtAddr::new`
-- of the x86_64 crate.
use aetheros_rust_project.Prelude.{ℕ}
use aetheros_rust_project.Prelude.Text.{Text, codes}

pub data AddressSpaceKind : Type 0 where
  kernel_only kernel_and_user : AddressSpaceKind

-- `AddressSpaceKind::label`
unfoldable pub label : AddressSpaceKind → Text
label kernel_only = codes "kernel-only"
label kernel_and_user = codes "kernel-and-user"

pub record AddressSpace (V : Type 0) : Type 0 where
  pub hhdm_offset : V
  pub kind : AddressSpaceKind
  pub user_range_start : V
  pub user_range_end : V

module _ {V : Type 0} (virt_addr : ℕ → V) where
  -- `AddressSpace::new`
  unfoldable pub new : V → AddressSpace V
  new hhdm_offset = record {
    hhdm_offset = hhdm_offset;
    kind = kernel_only;
    user_range_start = virt_addr 0;
    user_range_end = virt_addr 0;
  }

-- `AddressSpace::with_user_range`
unfoldable pub with_user_range : {V : Type 0} → V → V → V → AddressSpace V
with_user_range hhdm_offset start end = record {
  hhdm_offset = hhdm_offset;
  kind = kernel_and_user;
  user_range_start = start;
  user_range_end = end;
}
