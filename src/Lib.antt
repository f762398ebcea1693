-- ===== src/Lib.antt =====
-- vpopmail: virtual mail domains on a qmail host, in C. The models follow the library behind the
-- tools: the pure code of base64.c, the limits of a domain (vlimits.c), the quotas of users and
-- domains (quota.c), the control files and addresses of vpopmail.c, the packets and the work queue of
-- the usage daemon (vusaged), the queries of SQL (qnprintf), the strength of passwords (pwstr.c), the
-- ledgers of maildirs (maildirquota.c), the directories of a large domain (bigdir.c), and the
-- administration daemon (vpopmaild.c), a protocol of lines over the library.
--
-- The parts and how they interact. The limits of a domain stand in a file `.qmailadmin-limits` that
-- vlimits.c writes and reads. quota.c asks the usage daemon what a user or a domain uses, and compares
-- it with the user's Maildir++ quota string and with the limits of the domain. vpopmail.c keeps the
-- control files of qmail (users/assign, rcpthosts, virtualdomains and others) in the order of their
-- domains, and takes mail addresses apart.
--
--   Common    Boolean tests, lists of bytes, the integers of C, decimal numbers (`atoi`, `%d`), files
--             read with `fgets`.
--   Base64    base64.c: `init` is base64_init, `encode` base64_encode, `decode` base64_decode. A result
--             is the text written or one of the two error codes. Base64.Encode has a rendering without
--             a buffer, Base64.RoundTrip and Base64.Bounds what holds of both directions.
--   Limits    vlimits.c: `Vlimits` is struct vlimits, `write_limits_file` the writer. Limits.Line is the
--             parser of one line, Limits.Reader the loop of vlimits_read_limits_file over its buffer,
--             with fuel twice the length of the file and three: a round uses up a byte of it or is one
--             of the first and last rounds. Limits.Reader.Lines has the reading line by line without
--             a buffer. Limits.Mask is vlimits_get_flag_mask and vlimits_setflags,
--             Limits.Store vget_limits, vset_limits and vdel_limits.
--   Quota     quota.c: `mtos` is quota_mtos, `compare` quota_compare, `check` quota_check, `check_domain`
--             quota_check_domain, `usage` quota_usage, `percent` quota_percent. Quota.Parse is about the
--             quota strings, Quota.Compare and Quota.Check about the answers.
--   Assign    vpopmail.c, the control files: Assign.Domain is extract_domain, Assign.Update sort_check,
--             sort_file and update_file, Assign.Remove remove_lines. Assign.Reading, Assign.Scanned,
--             Assign.Sorted, Assign.Removed and Assign.Keys have the proofs.
--   Email     vpopmail.c, the addresses: lowerit, is_username_valid, is_domain_valid,
--             vset_default_domain and its safe version, parse_email, parse_email_safe,
--             user_domain_to_email. Email.Chars, Email.RoundTrip and Email.Results have the proofs.
--   Usage     vusaged, what the usage daemon reads: Usage.Grow is grow.c (grow_init, grow_inject,
--             grow_cut), Usage.Packet packet_read of packet.c, with fuel one above the number of bytes
--             in the buffer, of which a round takes two at least, and the string that query_parse of
--             query.c looks up. Usage.Framing has the proof.
--             Usage.Queue is queue.c with what its threads share of user.c and domain.c: `System` is the
--             shared state, `Step` what one thread does between two locks, `Reach` any interleaving.
--             The order in which the controller goes through the users and what a poll finds are left
--             open. Usage.Queue.Invariant, Usage.Queue.Accounts and Usage.Queue.Drain have the proofs.
--   Sql       vpopmail.c, `qnprintf`: Sql.Render has a rendering without a buffer, Sql.Literal what is
--             read of a value between quotes by a server, such as MySQL, that takes a backslash as an
--             escape.
--   Pwstr     pwstr.c: Pwstr.Rules is load_rules, over its file, Pwstr.Strength rule_is_true's use in
--             pw_strength, over the static variables as `State`. Pwstr.Words and Pwstr.Written have what
--             is read of a file that holds rules.
--   Maildir   maildirquota.c: `qcalc`; Maildir.Ledger is maildirsize_read and doaddquota, with the answers
--             of `writev` as a list, each of which uses up a call; Maildir.Counting is docount,
--             maildir_parsequota and the count in docheckquota. Maildir.Limits, Maildir.Written,
--             Maildir.Totals and Maildir.Names have the proofs.
--   Bigdir    bigdir.c: next_char, inc_dir and inc_dir_control, over the record that vread_dir_control
--             of the cdb backend makes for a new domain. Bigdir.Order and Bigdir.Users have the proofs.
--   Vpopmaild vpopmaild.c: `Library` is what the daemon calls, `Connection` the world, the calls made, the
--             input and the output, `Session` what login leaves. The log of calls has those that change or
--             show something, and not the lookups of accounts and domains. The commands are functions of their
--             names: Vpopmaild.Accounts, Vpopmaild.Aliases, Vpopmaild.Options (mod_user),
--             Vpopmaild.Domains, Vpopmaild.DomainLimits, Vpopmaild.Lists and Vpopmaild.Files
--             (validate_path). Vpopmaild.Table has the tables of commands, Vpopmaild.Login the loop up
--             to a login, with the four attempts that the code allows, Vpopmaild.Commands the loop behind it,
--             with the number of lines as fuel: what holds of it holds for every number.
--             Vpopmaild.Authority, Vpopmaild.Privileges, Vpopmaild.Flags, Vpopmaild.LimitLines and
--             Vpopmaild.Pages have the proofs.
--
-- A C string is the list of its bytes up to its end. Numbers are natural numbers; where the code
-- converts between signed and unsigned integers of 64 bits, the conversion is written out. Loops are
-- recursions on the text they read.
--
-- Parameters stand for what the files above only call: the arithmetic of `double` (`Double`),
-- `vget_assign`, the answers of the usage daemon (`Daemon`), the quotient in floating point, `qsort`
-- (it permutes the records and leaves them in order), the answers of the file system (`Host`) and of
-- the environment (`Settings`), and what the administration daemon calls (`Library`), the other parts
-- of vpopmail and the backends among them.
--
-- Not modelled: the rest of the usage daemon (its sockets, signals, userstores, waiting times),
-- the file handling of maildirquota.c, the message of pw_strength_error, seek.c, the groups,
-- the rest of vpopmail.c, the backends, delivery, the mailing lists and the
-- tools, which are mostly calls of the file system, of sockets and of databases; md5.c, hmac_md5.c, cdb
-- and uthash.h, which are copies of other projects' code.
pub mod Bigdir
pub mod Common
pub mod Base64
pub mod Limits
pub mod Maildir
pub mod Pwstr
pub mod Quota
pub mod Assign
pub mod Email
pub mod Sql
pub mod Usage
pub mod Vpopmaild
