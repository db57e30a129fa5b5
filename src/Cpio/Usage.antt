-- ===== src/Cpio/Usage.antt =====
-- What `PrintCpioUsage` of cpio.go prints.
use magiskboot_go.Base.{List, [], ◌∷◌, Bytes, codes, join}

abbrev pub cpio_usage_lines : List Bytes
cpio_usage_lines =
    codes "Usage: magiskboot cpio <incpio> [commands...]"
    ∷ codes ""
    ∷ codes "Do cpio commands to <incpio> (modifications are done in-place)."
    ∷ codes "Each command is a single argument; add quotes for each command."
    ∷ codes ""
    ∷ codes "Supported commands:"
    ∷ codes "  exists ENTRY"
    ∷ codes "    Return 0 if ENTRY exists, else return 1"
    ∷ codes "  ls [-r] [PATH]"
    ∷ codes "    List PATH (\"/\" by default); specify [-r] to list recursively"
    ∷ codes "  rm [-r] ENTRY"
    ∷ codes "    Remove ENTRY, specify [-r] to remove recursively"
    ∷ codes "  mkdir MODE ENTRY"
    ∷ codes "    Create directory ENTRY with permissions MODE"
    ∷ codes "  ln TARGET ENTRY"
    ∷ codes "    Create a symlink to TARGET with the name ENTRY"
    ∷ codes "  mv SOURCE DEST"
    ∷ codes "    Move SOURCE to DEST"
    ∷ codes "  add MODE ENTRY INFILE"
    ∷ codes "    Add INFILE as ENTRY with permissions MODE; replaces ENTRY if exists"
    ∷ codes "  extract [ENTRY OUT]"
    ∷ codes "    Extract ENTRY to OUT, or extract all entries to current directory"
    ∷ codes "  test"
    ∷ codes "    Test the cpio's status. Return values:"
    ∷ codes "    0:stock    1:Magisk    2:unsupported"
    ∷ codes "  patch"
    ∷ codes "    Apply ramdisk patches"
    ∷ codes "    Configure with env variables: KEEPVERITY KEEPFORCEENCRYPT"
    ∷ codes "  backup ORIG [-n]"
    ∷ codes "    Create ramdisk backups from ORIG, specify [-n] to skip compression"
    ∷ codes "  restore"
    ∷ codes "    Restore ramdisk from ramdisk backup stored within incpio"
    ∷ codes ""
    ∷ []

-- `PrintCpioUsage()`.
unfoldable pub cpio_usage_text : Bytes
unfolding join
cpio_usage_text = join cpio_usage_lines b'\n'
