-- ===== src/BootInfo.antt =====
-- crates/aether-bootinfo/src/lib.rs: what the boot stage hands to the kernel.
use aetheros_rust_project.Prelude.{ℕ, List, Option, replicate}
use aetheros_rust_project.Prelude.Words.{saturating_add64}

abbrev pub max_memory_regions : ℕ
max_memory_regions = 64

pub data MemoryRegionKind : Type 0 where
  usable reserved reclaimable kernel framebuffer unknown : MemoryRegionKind

pub record MemoryRegion : Type 0 where
  pub base : ℕ
  pub length : ℕ
  pub kind : MemoryRegionKind

abbrev pub empty_region : MemoryRegion
empty_region = record { base = 0; length = 0; kind = reserved }

-- `MemoryRegion::end`
unfoldable pub region_end : MemoryRegion → ℕ
region_end r = saturating_add64 r.base r.length

pub record FramebufferInfo : Type 0 where
  pub address : ℕ
  pub width : ℕ
  pub height : ℕ
  pub pitch : ℕ
  pub bpp : ℕ

-- `memory_regions` holds 64 entries.
pub record BootInfo : Type 0 where
  pub hhdm_offset : ℕ
  pub memory_map_entries : ℕ
  pub framebuffer : Option FramebufferInfo
  pub memory_regions : List MemoryRegion

-- `[MemoryRegion::EMPTY; MAX_MEMORY_REGIONS]`
abbrev pub no_regions : List MemoryRegion
no_regions = replicate max_memory_regions empty_region

-- `MemoryRegion::new`
abbrev pub new_region : ℕ → ℕ → MemoryRegionKind → MemoryRegion
new_region base length kind = record { base = base; length = length; kind = kind }

-- `FramebufferInfo::new`
abbrev pub new_framebuffer : (address width height pitch bpp : ℕ) → FramebufferInfo
new_framebuffer address width height pitch bpp = record {
  address = address;
  width = width;
  height = height;
  pitch = pitch;
  bpp = bpp;
}

-- `BootInfo::new`
abbrev pub new_boot_info : ℕ → ℕ → Option FramebufferInfo → List MemoryRegion → BootInfo
new_boot_info hhdm_offset memory_map_entries screen memory_regions = record {
  hhdm_offset = hhdm_offset;
  memory_map_entries = memory_map_entries;
  framebuffer = screen;
  memory_regions = memory_regions;
}
