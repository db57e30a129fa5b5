-- ===== src/Main/Usage.antt =====
-- What `Usage` of magiskboot.go prints.
use magiskboot_go.Base.{List, [], ◌∷◌, ◌++◌, Bytes, codes, join}
use magiskboot_go.Format.{Format, fmt2name}
use magiskboot_go.Main.{printed_formats}

-- The lines of the text behind that which names the program, up to the first list of formats.
abbrev pub action_lines : List Bytes
action_lines =
    codes ""
    ∷ codes "Supported actions:"
    ∷ codes "  unpack [-n] [-h] <bootimg>"
    ∷ codes "    Unpack <bootimg> to its individual components, each component to"
    ∷ codes "    a file with its corresponding file name in the current directory."
    ∷ codes "    Supported components: kernel, kernel_dtb, ramdisk.cpio, second,"
    ∷ codes "    dtb, extra, and recovery_dtbo."
    ∷ codes "    By default, each component will be decompressed on-the-fly."
    ∷ codes "    If '-n' is provided, all decompression operations will be skipped;"
    ∷ codes "    each component will remain untouched, dumped in its original format."
    ∷ codes "    If '-h' is provided, the boot image header information will be"
    ∷ codes "    dumped to the file 'header', which can be used to modify header"
    ∷ codes "    configurations during repacking."
    ∷ codes "    Return values:"
    ∷ codes "    0:valid    1:error    2:chromeos"
    ∷ codes ""
    ∷ codes "  repack [-n] <origbootimg> [outbootimg]"
    ∷ codes "    Repack boot image components using files from the current directory"
    ∷ codes "    to [outbootimg], or 'new-boot.img' if not specified. Current directory"
    ∷ codes "    should only contain required files for [outbootimg], or incorrect"
    ∷ codes "    [outbootimg] may be produced."
    ∷ codes "    <origbootimg> is the original boot image used to unpack the components."
    ∷ codes "    By default, each component will be automatically compressed using its"
    ∷ codes "    corresponding format detected in <origbootimg>. If a component file"
    ∷ codes "    in the current directory is already compressed, then no addition"
    ∷ codes "    compression will be performed for that specific component."
    ∷ codes "    If '-n' is provided, all compression operations will be skipped."
    ∷ codes "    If env variable PATCHVBMETAFLAG is set to true, all disable flags in"
    ∷ codes "    the boot image's vbmeta header will be set."
    ∷ codes ""
    ∷ codes "  verify <bootimg> [x509.pem]"
    ∷ codes "    Check whether the boot image is signed with AVB 1.0 signature."
    ∷ codes "    Optionally provide a certificate to verify whether the image is"
    ∷ codes "    signed by the public key certificate."
    ∷ codes "    Return value:"
    ∷ codes "    0:valid    1:error"
    ∷ codes ""
    ∷ codes "  sign <bootimg> [name] [x509.pem pk8]"
    ∷ codes "    Sign <bootimg> with AVB 1.0 signature."
    ∷ codes "    Optionally provide the name of the image (default: '/boot')."
    ∷ codes "    Optionally provide the certificate/private key pair for signing."
    ∷ codes "    If the certificate/private key pair is not provided, the AOSP"
    ∷ codes "    verity key bundled in the executable will be used."
    ∷ codes ""
    ∷ codes "  extract <payload.bin> [partition] [outfile]"
    ∷ codes "    Extract [partition] from <payload.bin> to [outfile]."
    ∷ codes "    If [outfile] is not specified, then output to '[partition].img'."
    ∷ codes "    If [partition] is not specified, then attempt to extract either"
    ∷ codes "    'init_boot' or 'boot'. Which partition was chosen can be determined"
    ∷ codes "    by whichever 'init_boot.img' or 'boot.img' exists."
    ∷ codes "    <payload.bin> can be '-' to be STDIN."
    ∷ codes ""
    ∷ codes "  hexpatch <file> <hexpattern1> <hexpattern2>"
    ∷ codes "    Search <hexpattern1> in <file>, and replace it with <hexpattern2>"
    ∷ codes ""
    ∷ codes "  cpio <incpio> [commands...]"
    ∷ codes "    Do cpio commands to <incpio> (modifications are done in-place)."
    ∷ codes "    Each command is a single argument; add quotes for each command."
    ∷ codes "    See \"cpio --help\" for supported commands."
    ∷ codes ""
    ∷ codes "  dtb <file> <action> [args...]"
    ∷ codes "    Do dtb related actions to <file>."
    ∷ codes "    See \"dtb --help\" for supported actions."
    ∷ codes ""
    ∷ codes "  split [-n] <file>"
    ∷ codes "    Split image.*-dtb into kernel + kernel_dtb."
    ∷ codes "    If '-n' is provided, decompression operations will be skipped;"
    ∷ codes "    the kernel will remain untouched, split in its original format."
    ∷ codes ""
    ∷ codes "  sha1 <file>"
    ∷ codes "    Print the SHA1 checksum for <file>"
    ∷ codes ""
    ∷ codes "  cleanup"
    ∷ codes "    Cleanup the current working directory"
    ∷ codes ""
    ∷ codes "  compress[=format] <infile> [outfile]"
    ∷ codes "    Compress <infile> with [format] to [outfile]."
    ∷ codes "    <infile>/[outfile] can be '-' to be STDIN/STDOUT."
    ∷ codes "    If [format] is not specified, then gzip will be used."
    ∷ codes "    If [outfile] is not specified, then <infile> will be replaced"
    ∷ codes "    with another file suffixed with a matching file extension."
    ∷ codes "    Supported formats: "
    ∷ []

-- The lines between the two lists of formats.
abbrev pub decompress_lines : List Bytes
decompress_lines =
    codes ""
    ∷ codes "\t"
    ∷ codes "  decompress <infile> [outfile]"
    ∷ codes "    Detect format and decompress <infile> to [outfile]."
    ∷ codes "    <infile>/[outfile] can be '-' to be STDIN/STDOUT."
    ∷ codes "    If [outfile] is not specified, then <infile> will be replaced"
    ∷ codes "    with another file removing its archive format file extension."
    ∷ codes "    Supported formats: "
    ∷ []

abbrev formats : List Format → Bytes
formats [] = []
formats (f ∷ fs) = fmt2name f ++ codes " " ++ formats fs

-- `Usage()`, for `os.Args[0]`.
unfoldable pub usage_text : Bytes → Bytes
unfolding join fmt2name printed_formats
usage_text program =
    codes "MagiskBoot - Boot Image Modification Tool\n\nUsage: "
    ++ program
    ++ codes " <action> [args...]\n"
    ++ join action_lines b'\n'
    ++ formats printed_formats
    ++ join decompress_lines b'\n'
    ++ formats printed_formats
    ++ codes "\n\n"
