-- ===== src/Fs/Initramfs.antt =====
-- kernel/src/fs/initramfs.rs: the files that are built into the kernel.
use aetheros_rust_project.Prelude.{List, [], ◌∷◌}
use aetheros_rust_project.Prelude.Text.{Text, codes}

pub record InitramfsFile : Type 0 where
  pub path : Text
  pub contents : Text

-- `build_initramfs`, which `files` calls once.
unfoldable pub files : List InitramfsFile
files =
    record {
      path = codes "/README.TXT";
      contents =
          codes
            "AetherOS initramfs\nStatic in-memory files for shell validation and boot-time inspection.\n";
    }
    ∷ record {
      path = codes "/STATUS.TXT";
      contents =
          codes
            "Boot, interrupts, memory, scheduler, shell, and QEMU validation are active in this academic v1 baseline.\n";
    }
    ∷ record {
      path = codes "/ROADMAP.TXT";
      contents =
          codes
            "AetherOS v1 baseline is focused on stable bring-up, observability, and educational subsystem boundaries.\n";
    }
    ∷ record {
      path = codes "/COMMANDS.TXT";
      contents =
          codes
            "help\ninfo\nticks\nmem\ntasks\nls\ncat <FILE>\nwrite <FILE> <TEXT>\nrm <FILE>\nstorage\nclear\n";
    }
    ∷ []
